-- ===== src/Tasks/Solving/Jobs.antt =====
-- tau/db/solver.py: the duel solves that are missing.
use ninja_validator.Base.{
  ℕ, ◌+◌, ◌*◌, ◌%◌, String, Bool, true, false, not, ◌&&◌, ◌||◌, Option, none, some, List, [], ◌∷◌,
  ◌++◌, map, ltb, leb, eqb, ◌==◌, string_key, keep, count_if, take, length, sort_by, if◌then◌else◌,
}
use ninja_validator.Floats.{Floats}
use ninja_validator.Duel.Snapshot.{PoolType}
use ninja_validator.Arena.Tables.{Arena, Task, Challenge, DuelTaskSolution}
use ninja_validator.Arena.Queries.{PoolTargets, target, is_ready_task, active_pool}
use ninja_validator.Tasks.Solving.{has_duel_solution}

pub record DuelSolveJob : Type 0 where
  pub task_id : String
  pub submission_id : String
  pub challenger_submission_id : String
  pub problem_statement : String
  pub repo_clone_url : String
  pub base_commit : String

-- A row of the query.
pub record DuelRow : Type 0 where
  pub task : Task
  pub king_submission_id : String
  pub challenger_submission_id : String
  pub missing_king : Bool
  pub missing_challenger : Bool

pub data Side : Type 0 where
  king challenger : Side

-- `_duel_job_for_side`
unfoldable pub duel_job_for_side : DuelRow → Side → DuelSolveJob
duel_job_for_side row side = record {
  task_id = row.task.task_id;
  submission_id = elim side [
    | king ↦ row.king_submission_id
    | challenger ↦ row.challenger_submission_id
  ];
  challenger_submission_id = row.challenger_submission_id;
  problem_statement = row.task.problem_statement;
  repo_clone_url = row.task.repo_clone_url;
  base_commit = row.task.parent_sha;
}

-- The join of one challenge and one task, with the two outer joins on the solutions.
unfoldable pub duel_row : Challenge → List DuelTaskSolution → Task → DuelRow
unfolding has_duel_solution
duel_row c solutions t = record {
  task = t;
  king_submission_id = c.king_id;
  challenger_submission_id = c.challenger_submission_id;
  missing_king = not (has_duel_solution t.task_id c.challenger_submission_id c.king_id solutions);
  missing_challenger =
      not (
        has_duel_solution t.task_id c.challenger_submission_id c.challenger_submission_id
          solutions);
}

abbrev pub is_missing : DuelRow → Bool
is_missing row = row.missing_king || row.missing_challenger

-- `qualified_count >= pool_target`, where a full pool is required.
abbrev pub pool_serves : Bool → PoolTargets → Challenge → PoolType → List Task → Bool
pool_serves require_full_pool targets c pool tasks =
    not require_full_pool
    || leb (target targets pool) (count_if (is_ready_task c.king_id pool) tasks)

-- The rows of one challenge, by the pool that it is in.
unfoldable pub rows_in :
    Bool
    → PoolTargets
    → List Task
    → List DuelTaskSolution
    → Challenge
    → Option PoolType
    → List DuelRow
unfolding duel_row
rows_in require_full_pool targets tasks solutions c none = []
rows_in require_full_pool targets tasks solutions c (some pool) =
    if pool_serves require_full_pool targets c pool tasks
    then keep is_missing (map (duel_row c solutions) (keep (is_ready_task c.king_id pool) tasks))
    else []

unfoldable pub all_rows :
    Bool → PoolTargets → List Task → List DuelTaskSolution → List Challenge → List DuelRow
unfolding rows_in
all_rows require_full_pool targets tasks solutions [] = []
all_rows require_full_pool targets tasks solutions (c ∷ cs) =
    rows_in require_full_pool targets tasks solutions c (active_pool c.status)
    ++ all_rows require_full_pool targets tasks solutions cs

-- `_duel_side_order`
unfoldable pub duel_side_order :
    (String → String → String → ℕ) → String → String → String → List Side
duel_side_order first_byte task king_id challenger_id =
    if eqb (first_byte challenger_id king_id task % 2) 0
    then king ∷ challenger ∷ []
    else challenger ∷ king ∷ []

-- `order by created_at, task_id, challenger_submission_id`
unfoldable pub row_before : (String → String → Bool) → DuelRow → DuelRow → Bool
row_before text_le a b =
    ltb a.task.created_at b.task.created_at
    || (eqb a.task.created_at b.task.created_at && elim (a.task.task_id == b.task.task_id) [
      | true ↦ text_le a.challenger_submission_id b.challenger_submission_id
      | false ↦ text_le a.task.task_id b.task.task_id
    ])

module _ (first_byte : String → String → String → ℕ) (limit : ℕ) where
  -- The jobs that the loop's body adds, or none for its `continue`.
  unfoldable pub jobs_of_row : ℕ → DuelRow → Option (List DuelSolveJob)
  unfolding duel_side_order duel_job_for_side
  jobs_of_row count row =
      if row.missing_king && row.missing_challenger
      then if ltb limit (count + 2)
        then none
        else (some (
            map (duel_job_for_side row) (
              duel_side_order first_byte row.task.task_id row.king_submission_id
                row.challenger_submission_id)))
      else if row.missing_king && ltb count limit
      then some (duel_job_for_side row king ∷ [])
      else if row.missing_challenger && ltb count limit
      then some (duel_job_for_side row challenger ∷ [])
      else some []

  -- The loop, with the jobs so far.
  unfoldable pub add_jobs : List DuelRow → List DuelSolveJob → List DuelSolveJob
  unfolding jobs_of_row
  add_jobs [] jobs = jobs
  add_jobs (row ∷ rows) jobs = elim (jobs_of_row (length jobs) row) [
    | none ↦ add_jobs rows jobs
    | some new ↦
        if leb limit (length (jobs ++ new)) then jobs ++ new else add_jobs rows (jobs ++ new)
  ]

  unfoldable pub next_duel_jobs :
      (String → String → Bool) → (fl : Floats) → Bool → PoolTargets → Arena fl → List DuelSolveJob
  unfolding all_rows row_before add_jobs
  next_duel_jobs text_le fl require_full_pool targets db =
      let rows = all_rows require_full_pool targets db.tasks db.solutions db.challenges in
      if leb limit 0 then [] else add_jobs (take (limit * 2) (sort_by (row_before text_le) rows)) []
