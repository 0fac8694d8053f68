-- ===== src/Screener/Worker/Admitted.antt =====
-- What it takes for a request of the screener to qualify a task.
use ninja_validator.Base.{
  ℕ, ◌<◌, ◌≤◌, ◌≡◌, ◌≢◌, refl, ◌⊎◌, inl, inr, String, true, false, Option, none, some, List,
  count_if, arith,
}
use ninja_validator.Floats.{Floats}
use ninja_validator.Duel.Snapshot.{PoolType}
use ninja_validator.Arena.Tables.{Arena, TaskScreening, Task, TaskStatus}
use ninja_validator.Arena.Queries.{PoolTargets, is_ready_task}
use ninja_validator.Tasks.Rows.{screening_of}
use ninja_validator.Tasks.Screening.{
  disqualified, tables_after, lock_pending_task, decide_screening,
}
use ninja_validator.Tasks.Screening.Errors.{TaskScreenRequest, count_failure}
use ninja_validator.Tasks.Invariant.Counts.{count-set}
use ninja_validator.Judging.Safety.{detect_injection}
use ninja_validator.Screener.Runner.{Client, finished, exhausted, out_of_time, screen_with_fallback}
use ninja_validator.Screener.Worker.{
  TaskScreenMode, disabled, shadow, enforce, TaskScreenerConfig, save_screening_decision,
  save_retryable_error, screen_and_save,
}

module _ (fl : Floats) (king : String) (pool : PoolType) where
  open fl use {Float, lt}

  abbrev pub ready_count : Arena fl → ℕ
  ready_count db = count_if (is_ready_task king pool) db.tasks

  module _ (config : TaskScreenerConfig fl) (request : TaskScreenRequest) (db : Arena fl) where
    decide_count :
        (task : Task) (s : TaskScreening fl) (reason : String) (score : Option Float) (most : Float)
        (targets : PoolTargets)
        → ready_count
            (tables_after db (decide_screening fl task s disqualified score most reason targets db))
          ≤ ready_count db
    unfolding decide_screening
    decide_count task s reason score most targets =
        ground (arith, count-set king pool task.task_id TaskStatus.disqualified db.tasks refl)

    declined_count :
        (reason : String) (score : Option Float)
        → ready_count (save_screening_decision fl config request disqualified reason score db)
          ≤ ready_count db
    unfolding save_screening_decision
    declined_count reason score =
        let id = request.task_id in
        let Goal =
          ready_count (save_screening_decision fl config request disqualified reason score db)
          ≤ ready_count db in
        elim (lock_pending_task fl id request.king_submission_id db)
            as (λ o. lock_pending_task fl id request.king_submission_id db ≡ o → Goal) [
              | none ↦ λ e. ground arith
              | some task ↦ λ e.
                  elim (screening_of fl id db.screenings)
                      as (λ o. screening_of fl id db.screenings ≡ o → Goal) [
                        | none ↦ λ f. ground arith
                        | some s ↦ λ f. ground (
                          arith,
                          decide_count task s reason score config.max_king_score
                              config.pool_targets,
                        )
                      ]
                    refl
            ]
          refl

    failure_count :
        (now : ℕ) (s : TaskScreening fl) (most base longest : ℕ)
        → ready_count (tables_after db (count_failure fl now s most base longest db))
          ≤ ready_count db
    unfolding count_failure
    failure_count now s most base longest =
        ground (arith, count-set king pool s.task_id TaskStatus.disqualified db.tasks refl)

    failed_count :
        (now : ℕ) → ready_count (save_retryable_error fl config now request db) ≤ ready_count db
    unfolding save_retryable_error
    failed_count now =
        let id = request.task_id in
        let Goal = ready_count (save_retryable_error fl config now request db) ≤ ready_count db in
        elim (screening_of fl id db.screenings)
            as (λ o. screening_of fl id db.screenings ≡ o → Goal) [
              | none ↦ λ f. ground arith
              | some s ↦ λ f. ground (
                arith,
                failure_count now s config.max_failed_runs config.retry_base config.retry_max,
              )
            ]
          refl

    -- A score that the mode admits.
    abbrev pub Admits : Float → Type 0
    Admits score = (config.mode ≡ shadow) ⊎ (lt config.max_king_score score ≡ false)

    -- What a request that qualifies a task has met.
    abbrev pub IsAdmitted : (List ℕ → List ℕ) → List (Client Float) → Option ℕ → Type 0
    IsAdmitted lower clients last_call =
        (config.mode ≡ disabled)
        ⊎ ((detect_injection lower request.qualification_solution ≡ false)
            × (score : Float) × ((screen_with_fallback lower last_call config.attempts clients).0
                ≡ finished score)
            × Admits score)

    module _ (lower : List ℕ → List ℕ) (clients : List (Client Float)) (last_call : Option ℕ)
        (now : ℕ) where
      abbrev after : Arena fl
      after = screen_and_save fl lower config clients last_call now request db

      -- With the screener at work: the decision on a score.
      score_Admits :
          (score : Float) (mode : TaskScreenMode)
          → config.mode ≡ mode
          → mode ≢ disabled
          → detect_injection lower request.qualification_solution ≡ false
          → (screen_with_fallback lower last_call config.attempts clients).0 ≡ finished score
          → ready_count db < ready_count after
          → Admits score
      unfolding screen_and_save
      score_Admits score disabled m active d r more = absurd (active refl)
      score_Admits score shadow m active d r more = inl m
      score_Admits score enforce m active d r more =
          elim (lt config.max_king_score score)
              as (λ b. lt config.max_king_score score ≡ b → Admits score) [
                | true ↦ λ e.
                    absurd (ground (arith, m, d, r, declined_count "score_above_max" (some score)))
                | false ↦ λ e. inr e
              ]
            refl

      active_IsAdmitted :
          (mode : TaskScreenMode)
          → config.mode ≡ mode
          → mode ≢ disabled
          → ready_count db < ready_count after
          → IsAdmitted lower clients last_call
      unfolding screen_and_save
      active_IsAdmitted mode m active more =
          elim (detect_injection lower request.qualification_solution)
              as (λ b.
                detect_injection lower request.qualification_solution ≡ b
                → IsAdmitted lower clients last_call) [
                  | true ↦ λ d. absurd (ground (arith, declined_count "prompt_injection" none))
                  | false ↦ λ d.
                      elim (screen_with_fallback lower last_call config.attempts clients).0
                          as (λ o.
                            (screen_with_fallback lower last_call config.attempts clients).0 ≡ o
                            → IsAdmitted lower clients last_call) [
                              | finished score ↦
                                  λ r. inr (d, score, r, score_Admits score mode m active d r more)
                              | exhausted ↦ λ r. absurd (ground (arith, failed_count now))
                              | out_of_time ↦ λ r. absurd (ground (arith, failed_count now))
                            ]
                        refl
                ]
            refl

    -- Where a request of the screener leaves more qualified tasks of a king in a pool than there were, the screener is disabled, or
    -- no injected prompt was found in the king's patch and the clients gave it a score, which is only recorded in the shadow mode and
    -- otherwise is not above the greatest score that is admitted.
    pub screen_and_save-IsAdmitted :
        (lower : List ℕ → List ℕ) (clients : List (Client Float)) (last_call : Option ℕ) (now : ℕ)
        → ready_count db
          < ready_count (screen_and_save fl lower config clients last_call now request db)
        → IsAdmitted lower clients last_call
    unfolding screen_and_save
    screen_and_save-IsAdmitted lower clients last_call now more =
        elim config.mode as (λ m. config.mode ≡ m → IsAdmitted lower clients last_call) [
          | disabled ↦ λ m. inl m
          | shadow ↦ λ m. active_IsAdmitted lower clients last_call now shadow m (λ e. cc) more
          | enforce ↦ λ m. active_IsAdmitted lower clients last_call now enforce m (λ e. cc) more
        ]
          refl
