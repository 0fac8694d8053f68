-- ===== src/Tasks/Screening/Backoff.antt =====
-- A screening that keeps failing: the back-off, and the end of it.
use ninja_validator.Base.{
  ℕ, zero, suc, ◌+◌, ◌≤◌, ◌<◌, ◌≡◌, max, ◌∙◌, ap, sym, String, true, Option, none, some, arith,
}
use native.Mathlib.Decide.{dec_lt}
use ninja_validator.Floats.{Floats}
use ninja_validator.Arena.Tables.{Arena, Task, TaskStatus, TaskScreening}
use ninja_validator.Arena.Queries.{reigning_king}
use ninja_validator.Tasks.Rows.{
  task_of, screening_of, save_screening, set_task_status, task_of-set_task_status,
  screening_of-save_screening, screening_id-screening_of,
}
use ninja_validator.Tasks.Screening.{Outcome, awaits_screen, lock_pending_task}
use ninja_validator.Tasks.Screening.Errors.{
  ScreeningFailureSave, retry_is_due, retry_delay, count_failure, save_error, retry_row,
  exhausted_row,
}

-- What is done with the result of a failed run: only a retry goes on.
abbrev settle :
    {S : Type 0}
    → (ℕ → S → Option (ScreeningFailureSave × S))
    → Outcome S ScreeningFailureSave
    → Option (ScreeningFailureSave × S)
settle again Outcome.failed = none
settle again (Outcome.returned ScreeningFailureSave.stale s) = some (ScreeningFailureSave.stale, s)
settle again (Outcome.returned (ScreeningFailureSave.exhausted n) s) =
    some (ScreeningFailureSave.exhausted n, s)
settle again (Outcome.returned (ScreeningFailureSave.retry n at) s) = again at s

module _ (fl : Floats) (id king : String) (max_failed_runs base most : ℕ) where
  -- The task waits for the screen of the reigning king, and its screening row is due.
  pub record IsDue (now : ℕ) (db : Arena fl) (t : Task) (s : TaskScreening fl) : Type 0 where
    pub reigns : reigning_king db.kings ≡ some king
    pub task : task_of id db.tasks ≡ some t
    pub awaits : awaits_screen king t ≡ true
    pub screening : screening_of fl id db.screenings ≡ some s
    pub due : retry_is_due now s.next_retry_at ≡ true

  -- Failed runs, each one recorded as soon as it is due, until the task is no longer retried.
  abbrev pub fail_until_settled : ℕ → ℕ → Arena fl → Option (ScreeningFailureSave × Arena fl)
  fail_until_settled zero now db = none
  fail_until_settled (suc n) now db =
      settle (fail_until_settled n) (save_error fl now id king max_failed_runs base most db)

  save_error-count_failure :
      (now : ℕ) (db : Arena fl) (t : Task) (s : TaskScreening fl)
      → IsDue now db t s
      → save_error fl now id king max_failed_runs base most db
        ≡ count_failure fl now s max_failed_runs base most db
  unfolding save_error lock_pending_task
  save_error-count_failure now db t s d =
      ground (arith, d.reigns, d.task, d.awaits, d.screening, d.due)

  -- The tables after a failed run that is retried, and after the last one.
  abbrev after_retry : ℕ → TaskScreening fl → Arena fl → Arena fl
  after_retry now s db = record db {
    screenings = save_screening fl (retry_row fl now base most s) db.screenings;
  }

  retried-IsDue :
      (now : ℕ) (db : Arena fl) (t : Task) (s : TaskScreening fl)
      → IsDue now db t s
      → IsDue
          (now + retry_delay base most (s.failed_runs + 1))
          (after_retry now s db)
          t
          (retry_row fl now base most s)
  unfolding retry_is_due
  retried-IsDue now db t s d = record {
    reigns = d.reigns;
    task = d.task;
    awaits = d.awaits;
    screening =
        screening_of-save_screening fl id s (retry_row fl now base most s) db.screenings d.screening
          (screening_id-screening_of fl id s db.screenings d.screening);
    due = ground arith;
  }

  save_error-retry :
      (now : ℕ) (db : Arena fl) (t : Task) (s : TaskScreening fl)
      → IsDue now db t s
      → s.failed_runs + 1 < max_failed_runs
      → max_failed_runs ≤ 1025
      → save_error fl now id king max_failed_runs base most db
        ≡ Outcome.returned
            (ScreeningFailureSave.retry
              (s.failed_runs + 1)
              (now + retry_delay base most (s.failed_runs + 1)))
            (after_retry now s db)
  unfolding count_failure
  save_error-retry now db t s d h k = save_error-count_failure now db t s d ∙ ground arith

  abbrev after_exhausted : TaskScreening fl → Arena fl → Arena fl
  after_exhausted s db = record db {
    tasks = set_task_status s.task_id TaskStatus.disqualified db.tasks;
    screenings = save_screening fl (exhausted_row fl s) db.screenings;
  }

  save_error-exhausted :
      (now : ℕ) (db : Arena fl) (t : Task) (s : TaskScreening fl)
      → IsDue now db t s
      → max_failed_runs ≤ s.failed_runs + 1
      → s.failed_runs < 32767
      → save_error fl now id king max_failed_runs base most db
        ≡ Outcome.returned
            (ScreeningFailureSave.exhausted (s.failed_runs + 1))
            (after_exhausted s db)
  unfolding count_failure
  save_error-exhausted now db t s d h k = save_error-count_failure now db t s d ∙ ground arith

  after_exhausted-task :
      (now : ℕ) (db : Arena fl) (t : Task) (s : TaskScreening fl)
      → IsDue now db t s
      → task_of id (after_exhausted s db).tasks
        ≡ some (record t { status_id = TaskStatus.disqualified })
  after_exhausted-task now db t s d =
      rw (screening_id-screening_of fl id s db.screenings d.screening)
        (task_of-set_task_status id TaskStatus.disqualified t db.tasks d.task)

  -- With at most 1025 failed runs allowed, and fewer than 32767 counted: while the task waits for the screen of the reigning king and its screening row is due: failed runs
  -- that are each recorded as soon as they are due settle the task within the runs that are left of
  -- `max_failed_runs` (one, if none is left), as exhausted at just that many runs, and it is
  -- disqualified.
  pub fail_until_settled-exhausted :
      (n now : ℕ) (db : Arena fl) (t : Task) (s : TaskScreening fl)
      → IsDue now db t s
      → max_failed_runs ≤ s.failed_runs + n
      → 1 ≤ n
      → max_failed_runs ≤ 1025
      → s.failed_runs < 32767
      → (db' : Arena fl) × (fail_until_settled n now db
          ≡ some (ScreeningFailureSave.exhausted (max max_failed_runs (s.failed_runs + 1)), db'))
        × (task_of id db'.tasks ≡ some (record t { status_id = TaskStatus.disqualified }))
  fail_until_settled-exhausted zero now db t s d h p k l = absurd (omega arith)
  fail_until_settled-exhausted (suc n) now db t s d h p k l =
      elim (dec_lt (s.failed_runs + 1) max_failed_runs) [
        | no q ↦
            let q' : max_failed_runs ≤ s.failed_runs + 1 = omega arith in
            let e : max max_failed_runs (s.failed_runs + 1) ≡ s.failed_runs + 1 = ground arith in
            (
              after_exhausted s db,
              ap (settle (fail_until_settled n)) (save_error-exhausted now db t s d q' l)
                  ∙ ap (λ r. some (ScreeningFailureSave.exhausted r, after_exhausted s db)) (sym e),
              after_exhausted-task now db t s d,
            )
        | yes q ↦
            let e : max max_failed_runs (s.failed_runs + 1)
                ≡ max max_failed_runs (s.failed_runs + 1 + 1) =
              ground arith in
            let (db', r, u) =
              fail_until_settled-exhausted n (now + retry_delay base most (s.failed_runs + 1))
                (after_retry now s db) t (retry_row fl now base most s) (retried-IsDue now db t s d)
                (omega arith) (omega arith) k (omega arith) in
            (
              db',
              ap (settle (fail_until_settled n)) (save_error-retry now db t s d q k)
                  ∙ r
                  ∙ ap (λ r. some (ScreeningFailureSave.exhausted r, db')) (sym e),
              u,
            )
      ]
