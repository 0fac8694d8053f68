-- ===== src/Tasks/Generation.antt =====
-- tau/db/generator.py. `none` stands for an exception, which rolls the transaction back.
pub mod Deficits
use ninja_validator.Base.{
  ℕ, suc, ◌+◌, ◌-◌, ◌/◌, ◌%◌, String, Bool, true, false, not, ◌&&◌, ◌||◌, Option, none, some, List,
  [], ◌∷◌, ◌++◌, ltb, eqb, ◌==◌, string_key, keep, count_if, length, is_some, if◌then◌else◌,
}
use ninja_validator.Floats.{Floats}
use ninja_validator.Duel.Snapshot.{PoolType, pool_one, pool_two}
use ninja_validator.Arena.Tables.{Arena, Task, TaskStatus, TaskGenerationFailure}
use ninja_validator.Arena.Queries.{PoolTargets, target, reigning_king, is_ready_task, same_pool}
use ninja_validator.Generator.Workqueue.{PoolDeficit}
use ninja_validator.Tasks.Rows.{task_of, is_candidate, is_pending_screen}

-- The rows that count as `active`.
abbrev pub is_active_task : String → PoolType → Task → Bool
is_active_task king pool t =
    t.king_id == king
    && ((is_candidate t.status_id || is_pending_screen t.status_id) && same_pool t.pool_type pool)

-- `qualified[pool] < targets.target(pool)`
unfoldable pub is_incomplete : String → PoolTargets → List Task → PoolType → Bool
is_incomplete king targets tasks pool =
    ltb (count_if (is_ready_task king pool) tasks) (target targets pool)

-- The returned comprehension, from the index `i` on.
unfoldable pub deficits_from : String → List Task → ℕ → ℕ → ℕ → List PoolType → List PoolDeficit
deficits_from king tasks share remainder i [] = []
deficits_from king tasks share remainder i (pool ∷ pools) =
    let rest = deficits_from king tasks share remainder (suc i) pools in
    let wanted = share + (if ltb i remainder then 1 else 0) in
    let active = count_if (is_active_task king pool) tasks in
    if ltb active wanted
    then record { king_id = king; pool = pool; deficit = wanted - active } ∷ rest
    else rest

unfoldable pub deficits_of : String → PoolTargets → ℕ → List Task → List PoolDeficit
unfolding is_incomplete deficits_from
deficits_of king targets inflight tasks =
    let incomplete = keep (is_incomplete king targets tasks) (pool_one ∷ pool_two ∷ []) in
    let count = length incomplete in
    if eqb count 0
    then []
    else deficits_from king tasks (inflight / count) (inflight % count) 0 incomplete

-- The keyword arguments of `insert_task_candidate`, less the telemetry.
pub record TaskCandidate : Type 0 where
  pub task_id : String
  pub king_id : String
  pub pool_type : PoolType
  pub problem_statement : String
  pub reference_patch : String
  pub repo_clone_url : String
  pub parent_sha : String
  pub commit_sha : String
  pub content_fingerprint : String

abbrev pub candidate_row : ℕ → TaskCandidate → Task
candidate_row now c = record {
  task_id = c.task_id;
  king_id = c.king_id;
  pool_type = c.pool_type;
  status_id = TaskStatus.candidate;
  problem_statement = c.problem_statement;
  reference_patch = c.reference_patch;
  repo_clone_url = c.repo_clone_url;
  parent_sha = c.parent_sha;
  commit_sha = c.commit_sha;
  content_fingerprint = c.content_fingerprint;
  created_at = now;
}

unfoldable pub has_fingerprint : String → List Task → Bool
has_fingerprint f [] = false
has_fingerprint f (t ∷ ts) = t.content_fingerprint == f || has_fingerprint f ts

module _ (fl : Floats) where
  unfoldable pub pending_pool_deficits : PoolTargets → ℕ → Arena fl → Option (List PoolDeficit)
  unfolding deficits_of
  pending_pool_deficits targets inflight db =
      if ltb inflight 1 then none else elim (reigning_king db.kings) [
        | none ↦ some []
        | some king ↦ some (deficits_of king targets inflight db.tasks)
      ]

  unfoldable pub fingerprint_exists : String → Arena fl → Bool
  unfolding has_fingerprint
  fingerprint_exists f db = has_fingerprint f db.tasks

  -- A task's id that is taken breaks the primary key, for which no conflict clause is given.
  unfoldable pub insert_task_candidate : ℕ → TaskCandidate → Arena fl → Option (Arena fl × Bool)
  unfolding has_fingerprint task_of
  insert_task_candidate now c db =
      if has_fingerprint c.content_fingerprint db.tasks
      then some (db, false)
      else if is_some (task_of c.task_id db.tasks)
      then none
      else some (record db { tasks = db.tasks ++ candidate_row now c ∷ [] }, true)

  unfoldable pub record_generation_failure : TaskGenerationFailure → Arena fl → Arena fl
  record_generation_failure failure db = record db {
    generation_failures = db.generation_failures ++ failure ∷ [];
  }
