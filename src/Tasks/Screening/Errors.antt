-- ===== src/Tasks/Screening/Errors.antt =====
-- tau/db/task_screening.py: the due requests, and the failed runs.
use ninja_validator.Base.{
  ℕ, ◌+◌, ◌-◌, ◌*◌, ◌^◌, min, String, Bool, true, not, ◌&&◌, ◌||◌, Option, none, some, List, [],
  ◌∷◌, ◌++◌, ltb, leb, eqb, ◌==◌, string_key, if◌then◌else◌, sort_by,
}
use ninja_validator.Floats.{Floats}
use ninja_validator.Arena.Tables.{Arena, Task, TaskStatus, TaskScreening}
use ninja_validator.Arena.Queries.{reigning_king}
use ninja_validator.Tasks.Rows.{set_task_status, screening_of, save_screening}
use ninja_validator.Tasks.Screening.{Outcome, awaits_screen, lock_pending_task}

-- The literal of the state, with the fields that go with it.
pub data ScreeningFailureSave : Type 0 where
  stale : ScreeningFailureSave
  retry : (failed_runs next_retry_at : ℕ) → ScreeningFailureSave
  exhausted : (failed_runs : ℕ) → ScreeningFailureSave

-- `_retry_is_due`
unfoldable pub retry_is_due : ℕ → Option ℕ → Bool
retry_is_due now none = true
retry_is_due now (some at) = leb at now

-- `min(retry_max_seconds, retry_base_seconds * 2 ** (failed_runs - 1))`
unfoldable pub retry_delay : ℕ → ℕ → ℕ → ℕ
retry_delay base most runs = min most (base * 2 ^ (runs - 1))

pub record TaskScreenRequest : Type 0 where
  pub task_id : String
  pub king_submission_id : String
  pub problem_statement : String
  pub reference_patch : String
  pub qualification_solution : String

-- `order by tasks.created_at, tasks.task_id`, where `text_le` is the order of the database's texts.
unfoldable pub created_before : (String → String → Bool) → Task → Task → Bool
created_before text_le a b =
    ltb a.created_at b.created_at || (eqb a.created_at b.created_at && text_le a.task_id b.task_id)

module _ (fl : Floats) where
  -- The request of one task, by the join with its screening row.
  unfoldable pub screen_request_of :
      ℕ → Bool → String → List (TaskScreening fl) → Task → List TaskScreenRequest
  unfolding screening_of retry_is_due
  screen_request_of now include_deferred king screenings t =
      if not (awaits_screen king t) then [] else elim (screening_of fl t.task_id screenings) [
        | none ↦ []
        | some s ↦
            if s.king_submission_id == king
              && (include_deferred || retry_is_due now s.next_retry_at)
            then record {
              task_id = t.task_id;
              king_submission_id = t.king_id;
              problem_statement = t.problem_statement;
              reference_patch = t.reference_patch;
              qualification_solution = s.qualification_solution;
            }
              ∷ []
            else []
      ]

  unfoldable pub requests_of :
      ℕ → Bool → String → List (TaskScreening fl) → List Task → List TaskScreenRequest
  unfolding screen_request_of
  requests_of now include_deferred king screenings [] = []
  requests_of now include_deferred king screenings (t ∷ ts) =
      screen_request_of now include_deferred king screenings t
      ++ requests_of now include_deferred king screenings ts

  unfoldable pub pending_requests :
      (String → String → Bool) → ℕ → Bool → Arena fl → List TaskScreenRequest
  unfolding requests_of created_before
  pending_requests text_le now include_deferred db = elim (reigning_king db.kings) [
    | none ↦ []
    | some king ↦
        requests_of now include_deferred king db.screenings
          (sort_by (created_before text_le) db.tasks)
  ]

  -- The row after a failed run that is retried, and after the last one.
  abbrev pub retry_row : ℕ → ℕ → ℕ → TaskScreening fl → TaskScreening fl
  retry_row now base most s = record s {
    failed_runs = s.failed_runs + 1;
    reason = none;
    next_retry_at = some (now + retry_delay base most (s.failed_runs + 1));
  }

  abbrev pub exhausted_row : TaskScreening fl → TaskScreening fl
  exhausted_row s = record s {
    failed_runs = s.failed_runs + 1;
    reason = some "screening_exhausted";
    next_retry_at = none;
  }

  -- `save_error` from the count on. The column of the count has 16 bits, with a sign; the product of a float
  -- and `2 ** (failed_runs - 1)` raises an OverflowError from the power 1024 on.
  unfoldable pub count_failure :
      ℕ → TaskScreening fl → ℕ → ℕ → ℕ → Arena fl → Outcome (Arena fl) ScreeningFailureSave
  unfolding set_task_status save_screening retry_delay
  count_failure now s max_failed_runs base most db =
      let runs = s.failed_runs + 1 in
      if ltb 32767 runs
      then Outcome.failed
      else if leb max_failed_runs runs
      then Outcome.returned (ScreeningFailureSave.exhausted runs) (record db {
        tasks = set_task_status s.task_id TaskStatus.disqualified db.tasks;
        screenings = save_screening fl (exhausted_row s) db.screenings;
      })
      else if ltb 1024 runs
      then Outcome.failed
      else Outcome.returned (ScreeningFailureSave.retry runs (now + retry_delay base most runs))
          (record db { screenings = save_screening fl (retry_row now base most s) db.screenings })

  -- `now` is the worker's clock and the database's alike. The join with the screening row leaves out
  -- a task that has none, so the `RuntimeError` that follows in the source cannot be raised.
  unfoldable pub save_error :
      ℕ → String → String → ℕ → ℕ → ℕ → Arena fl → Outcome (Arena fl) ScreeningFailureSave
  unfolding lock_pending_task screening_of retry_is_due count_failure
  save_error now id king max_failed_runs base most db = elim (lock_pending_task fl id king db) [
    | none ↦ Outcome.returned ScreeningFailureSave.stale db
    | some _ ↦ elim (screening_of fl id db.screenings) [
      | none ↦ Outcome.returned ScreeningFailureSave.stale db
      | some s ↦
          if retry_is_due now s.next_retry_at
          then count_failure now s max_failed_runs base most db
          else Outcome.returned ScreeningFailureSave.stale db
    ]
  ]
