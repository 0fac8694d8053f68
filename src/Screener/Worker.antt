-- ===== src/Screener/Worker.antt =====
-- tau/workers/task_screener/pipeline.py: one request of the screener, from the prompt-injection screen to its
-- write. `lower` is `str.lower`, `now` the clock at a failed run's write.
pub mod Admitted
use ninja_validator.Base.{ℕ, String, Bool, true, false, Option, none, some, List, if◌then◌else◌}
use ninja_validator.Floats.{Floats}
use ninja_validator.Arena.Tables.{Arena}
use ninja_validator.Arena.Queries.{PoolTargets}
use ninja_validator.Tasks.Screening.{
  FinalScreeningOutcome, qualified, disqualified, Outcome, tables_after, save_decision,
}
use ninja_validator.Tasks.Screening.Errors.{TaskScreenRequest, save_error}
use ninja_validator.Judging.Safety.{detect_injection}
use ninja_validator.Screener.Runner.{
  Client, ScreenRun, finished, exhausted, out_of_time, screen_with_fallback,
}

pub data TaskScreenMode : Type 0 where
  disabled shadow enforce : TaskScreenMode

module _ (fl : Floats) where
  open fl use {Float, nought, unit, le, lt}

  -- `attempts` is that of the LLM's configuration.
  pub record TaskScreenerConfig : Type 0 where
    pub mode : TaskScreenMode
    pub max_king_score : Float
    pub attempts : ℕ
    pub max_failed_runs : ℕ
    pub retry_base : ℕ
    pub retry_max : ℕ
    pub pool_targets : PoolTargets

  -- `_save_decision`: the tables after it; an exception leaves them as they are.
  unfoldable pub save_screening_decision :
      TaskScreenerConfig
      → TaskScreenRequest
      → FinalScreeningOutcome
      → String
      → Option Float
      → Arena fl
      → Arena fl
  unfolding save_decision
  save_screening_decision config request outcome reason score db = tables_after db (
      save_decision fl request.task_id request.king_submission_id outcome score
        config.max_king_score reason config.pool_targets db)

  -- `_save_retryable_error`
  unfoldable pub save_retryable_error :
      TaskScreenerConfig → ℕ → TaskScreenRequest → Arena fl → Arena fl
  unfolding save_error
  save_retryable_error config now request db = tables_after db (
      save_error fl now request.task_id request.king_submission_id config.max_failed_runs
        config.retry_base config.retry_max db)

  -- What a score comes to.
  abbrev pub outcome_of : TaskScreenerConfig → Float → FinalScreeningOutcome × String
  outcome_of config score = elim config.mode [
    | TaskScreenMode.shadow ↦ (qualified, "shadow_score_recorded")
    | _ ↦
        if lt config.max_king_score score
        then (disqualified, "score_above_max")
        else (qualified, "score_at_or_below_max")
  ]

  -- `_screen_and_save`
  unfoldable pub screen_and_save :
      (List ℕ → List ℕ)
      → TaskScreenerConfig
      → List (Client Float)
      → Option ℕ
      → ℕ
      → TaskScreenRequest
      → Arena fl
      → Arena fl
  screen_and_save lower config clients last_call now request db =
      let scored : Arena fl =
        elim (screen_with_fallback lower last_call config.attempts clients).0 [
          | finished score ↦
              let (outcome, reason) = outcome_of config score in
              save_screening_decision config request outcome reason (some score) db
          | exhausted ↦ save_retryable_error config now request db
          | out_of_time ↦ save_retryable_error config now request db
        ] in
      let screened : Arena fl =
        if detect_injection lower request.qualification_solution
        then save_screening_decision config request disqualified "prompt_injection" none db
        else scored in
      elim config.mode [
        | TaskScreenMode.disabled ↦
            save_screening_decision config request qualified "screening_disabled" none db
        | _ ↦ screened
      ]
