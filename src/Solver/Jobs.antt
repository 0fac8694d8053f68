-- ===== src/Solver/Jobs.antt =====
-- tau/workers/task_solver/loop.py: what one job writes. The sandboxed run is its result, where `none`
-- stands for a `CloneError`; `splitlines` and `startswith` are the methods of Python's `str`.
use ninja_validator.Base.{
  ℕ, suc, String, Bool, true, false, not, ◌&&◌, Option, none, some, List, [], ◌∷◌, leb, string_key,
  contains, if◌then◌else◌,
}
use ninja_validator.Floats.{Floats}
use ninja_validator.Arena.Tables.{Arena, Usage}
use ninja_validator.Tasks.Screening.{Outcome}
use ninja_validator.Tasks.Solving.{SolveJob, finish_qualification, save_duel_task_solution}
use ninja_validator.Tasks.Solving.Jobs.{DuelSolveJob}

-- The fields of `AgentRunResult` that the worker reads, less those for telemetry.
pub record AgentRunResult : Type 0 where
  pub success : Bool
  pub exit_reason : String
  pub solution_diff : String
  pub usage : Usage

-- The sandbox's `EXIT_UPSTREAM_ERROR` and `EXIT_SANDBOX_ERROR`.
abbrev pub retryable_exit_reasons : List String
retryable_exit_reasons = "upstream_error" ∷ "sandbox_error" ∷ []

unfoldable pub is_retryable : AgentRunResult → Bool
is_retryable r = contains r.exit_reason retryable_exit_reasons

module _ (splitlines : String → List String) (startswith : String → String → Bool) where
  -- The loop of `_changed_lines`.
  unfoldable pub count_changed : List String → ℕ
  count_changed [] = 0
  count_changed (line ∷ lines) =
      let rest = count_changed lines in
      if startswith line "+" && not (startswith line "+++")
      then suc rest
      else if startswith line "-" && not (startswith line "---")
      then suc rest
      else rest

  unfoldable pub changed_lines : String → ℕ
  unfolding count_changed
  changed_lines diff = count_changed (splitlines diff)

  module _ (fl : Floats) where
    -- `_qualify`; `bundle` tells whether the submission's files are there.
    unfoldable pub qualify :
        ℕ → Bool → Option AgentRunResult → SolveJob → Arena fl → Outcome (Arena fl) Unit
    unfolding changed_lines is_retryable
    qualify min_changed_lines false run job db = Outcome.returned tt db
    qualify min_changed_lines true none job db =
        finish_qualification fl job.task_id job.submission_id false "" db
    qualify min_changed_lines true (some r) job db =
        if is_retryable r
        then Outcome.returned tt db
        else finish_qualification fl job.task_id job.submission_id
            (r.success && leb min_changed_lines (changed_lines r.solution_diff)) r.solution_diff db

    -- `_solve_duel`
    unfoldable pub solve_duel :
        Bool → Option AgentRunResult → DuelSolveJob → Arena fl → Outcome (Arena fl) Unit
    unfolding is_retryable
    solve_duel false run job db = Outcome.returned tt db
    solve_duel true none job db = Outcome.failed
    solve_duel true (some r) job db =
        if is_retryable r
        then Outcome.returned tt db
        else Outcome.returned tt (
            save_duel_task_solution fl job.task_id job.challenger_submission_id job.submission_id
              r.solution_diff r.exit_reason r.usage db)
