-- ===== src/Tasks/Solving.antt =====
-- tau/db/solver.py: the solver's reads and writes. `text_le` is the order of the database's texts, and
-- `first_byte` the byte that `blake2b` gives of the joined ids.
pub mod Jobs
pub mod Due
pub mod Missing
use ninja_validator.Base.{
  ℕ, ◌+◌, ◌*◌, ◌%◌, String, Bool, true, false, not, ◌&&◌, ◌||◌, Option, none, some, List, [], ◌∷◌,
  ◌++◌, map, ltb, leb, eqb, ◌==◌, string_key, keep, count_if, take, length, sort_by, is_some,
  if◌then◌else◌,
}
use ninja_validator.Floats.{Floats}
use ninja_validator.Duel.Snapshot.{PoolType, pool_int}
use ninja_validator.Arena.Tables.{
  Arena, Task, TaskStatus, Challenge, DuelTaskSolution, TaskSolution, TaskScreening, Usage,
}
use ninja_validator.Arena.Queries.{PoolTargets, target, reigning_king, is_ready_task, active_pool}
use ninja_validator.Tasks.Rows.{task_of, set_task_status, is_candidate, screening_of}
use ninja_validator.Tasks.Screening.{Outcome, names_king}

pub record SolveJob : Type 0 where
  pub task_id : String
  pub submission_id : String
  pub problem_statement : String
  pub repo_clone_url : String
  pub base_commit : String

-- `order by pool_type, created_at`
unfoldable pub pool_before : Task → Task → Bool
pool_before a b =
    ltb (pool_int a.pool_type) (pool_int b.pool_type)
    || (eqb (pool_int a.pool_type) (pool_int b.pool_type) && leb a.created_at b.created_at)

abbrev pub solve_job : String → Task → SolveJob
solve_job king t = record {
  task_id = t.task_id;
  submission_id = king;
  problem_statement = t.problem_statement;
  repo_clone_url = t.repo_clone_url;
  base_commit = t.parent_sha;
}

abbrev pub is_candidate_of : String → Task → Bool
is_candidate_of king t = t.king_id == king && is_candidate t.status_id

-- `(task_id, challenger_submission_id, submission_id)` has a row.
unfoldable pub has_duel_solution : String → String → String → List DuelTaskSolution → Bool
has_duel_solution task challenger side [] = false
has_duel_solution task challenger side (s ∷ ss) =
    (s.task_id == task && (s.challenger_submission_id == challenger && s.submission_id == side))
    || has_duel_solution task challenger side ss

unfoldable pub has_task_solution : String → String → List TaskSolution → Bool
has_task_solution task side [] = false
has_task_solution task side (s ∷ ss) =
    (s.task_id == task && s.submission_id == side) || has_task_solution task side ss

module _ (fl : Floats) where
  -- A limit below 0 is as 0.
  unfoldable pub next_qualification_jobs : ℕ → Arena fl → List SolveJob
  unfolding pool_before
  next_qualification_jobs limit db = if leb limit 0 then [] else elim (reigning_king db.kings) [
    | none ↦ []
    | some king ↦
        map (solve_job king)
          (take limit (sort_by pool_before (keep (is_candidate_of king) db.tasks)))
  ]

  -- The inserted row, with the columns' defaults.
  abbrev pub screening_row : String → String → String → TaskScreening fl
  screening_row id king solution = record {
    task_id = id;
    king_submission_id = king;
    qualification_solution = solution;
    king_score = none;
    max_score = none;
    reason = none;
    failed_runs = 0;
    next_retry_at = none;
  }

  -- The status update and the screening row. A screening row that is there already breaks the primary
  -- key, for which no conflict clause is given.
  unfoldable pub advance_candidate :
      String → String → Bool → String → Arena fl → Outcome (Arena fl) Unit
  unfolding set_task_status screening_of
  advance_candidate id king false solution db =
      Outcome.returned tt
        (record db { tasks = set_task_status id TaskStatus.disqualified db.tasks })
  advance_candidate id king true solution db =
      if is_some (screening_of fl id db.screenings)
      then Outcome.failed
      else Outcome.returned tt (record db {
        tasks = set_task_status id TaskStatus.pending_screen db.tasks;
        screenings = db.screenings ++ screening_row id king solution ∷ [];
      })

  unfoldable pub finish_qualification :
      String → String → Bool → String → Arena fl → Outcome (Arena fl) Unit
  unfolding task_of advance_candidate
  finish_qualification id king qualified solution db =
      if not (names_king (reigning_king db.kings) king)
      then Outcome.returned tt db
      else elim (task_of id db.tasks) [
        | none ↦ Outcome.returned tt db
        | some t ↦
            if is_candidate_of king t
            then advance_candidate id king qualified solution db
            else Outcome.returned tt db
      ]

  unfoldable pub save_duel_task_solution :
      String → String → String → String → String → Usage → Arena fl → Arena fl
  unfolding has_duel_solution
  save_duel_task_solution task challenger side solution exit_reason usage db =
      if has_duel_solution task challenger side db.solutions then db else record db {
        solutions =
            db.solutions
            ++ record {
              task_id = task;
              challenger_submission_id = challenger;
              submission_id = side;
              solution = some solution;
              exit_reason = some exit_reason;
              total_tokens = usage;
            }
              ∷ [];
      }

  unfoldable pub save_task_solution : String → String → String → String → Arena fl → Arena fl
  unfolding has_task_solution
  save_task_solution task side solution exit_reason db =
      if has_task_solution task side db.task_solutions then db else record db {
        task_solutions =
            db.task_solutions
            ++ record {
              task_id = task;
              submission_id = side;
              solution = some solution;
              exit_reason = some exit_reason;
            }
              ∷ [];
      }
