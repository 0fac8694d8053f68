-- ===== src/Tasks/Solving/Due.antt =====
-- The rows that the query for duel jobs gives, and the jobs of one row.
use mathlib.Core.List.{Memᴰ}
use ninja_validator.Base.{
  ℕ, ◌+◌, ◌≤◌, ◌<◌, ◌≡◌, ◌⊎◌, inl, inr, refl, sym, String, Bool, true, false, Option, none, some,
  List, [], ◌∷◌, map, keep, subst, length, arith, All,
}
use ninja_validator.Base.Alls.{All-imp, All-if, All-append, All-keep, All-Mem, All-map}
use ninja_validator.Duel.Snapshot.{PoolType}
use ninja_validator.Arena.Tables.{Task, Challenge, DuelTaskSolution}
use ninja_validator.Arena.Queries.{PoolTargets, is_ready_task, active_pool}
use ninja_validator.Tasks.Solving.{has_duel_solution}
use ninja_validator.Tasks.Solving.Jobs.{
  DuelSolveJob, DuelRow, Side, duel_job_for_side, duel_row, is_missing, pool_serves, rows_in,
  all_rows, duel_side_order, jobs_of_row,
}

module _ (challenges : List Challenge) (tasks : List Task) (solutions : List DuelTaskSolution) where
  -- The row comes of an active challenge and a qualified task of the pool that it is in.
  pub record IsDueRow (row : DuelRow) : Type 0 where
    pub challenge : Challenge
    pub pool : PoolType
    pub here : Memᴰ challenge challenges
    pub active : active_pool challenge.status ≡ some pool
    pub listed : Memᴰ row.task tasks
    pub ready : is_ready_task challenge.king_id pool row.task ≡ true
    pub joined : row ≡ duel_row challenge solutions row.task

  -- The job solves such a task for one side of such a challenge, which has no solution yet.
  pub record IsDue (job : DuelSolveJob) : Type 0 where
    pub challenge : Challenge
    pub task : Task
    pub pool : PoolType
    pub here : Memᴰ challenge challenges
    pub active : active_pool challenge.status ≡ some pool
    pub listed : Memᴰ task tasks
    pub ready : is_ready_task challenge.king_id pool task ≡ true
    pub of_task : job.task_id ≡ task.task_id
    pub of_challenge : job.challenger_submission_id ≡ challenge.challenger_submission_id
    pub side :
        (job.submission_id ≡ challenge.king_id)
        ⊎ (job.submission_id ≡ challenge.challenger_submission_id)
    pub missing :
        has_duel_solution job.task_id job.challenger_submission_id job.submission_id solutions
        ≡ false

  king_job-IsDue :
      (row : DuelRow)
      → IsDueRow row
      → row.missing_king ≡ true
      → IsDue (duel_job_for_side row Side.king)
  unfolding duel_job_for_side duel_row
  king_job-IsDue row r m = record {
    challenge = r.challenge;
    task = row.task;
    pool = r.pool;
    here = r.here;
    active = r.active;
    listed = r.listed;
    ready = r.ready;
    of_task = refl;
    of_challenge = ground (arith, r.joined);
    side = inl (ground (arith, r.joined));
    missing = ground (arith, r.joined);
  }

  challenger_job-IsDue :
      (row : DuelRow)
      → IsDueRow row
      → row.missing_challenger ≡ true
      → IsDue (duel_job_for_side row Side.challenger)
  unfolding duel_job_for_side duel_row
  challenger_job-IsDue row r m = record {
    challenge = r.challenge;
    task = row.task;
    pool = r.pool;
    here = r.here;
    active = r.active;
    listed = r.listed;
    ready = r.ready;
    of_task = refl;
    of_challenge = ground (arith, r.joined);
    side = inr (ground (arith, r.joined));
    missing = ground (arith, r.joined);
  }

  keep-IsDueRow :
      (c : Challenge) (pool : PoolType)
      → Memᴰ c challenges
      → active_pool c.status ≡ some pool
      → All IsDueRow
          (keep is_missing (map (duel_row c solutions) (keep (is_ready_task c.king_id pool) tasks)))
  unfolding duel_row
  keep-IsDueRow c pool m e =
      let due : All (λ t. IsDueRow (duel_row c solutions t))
          (keep (is_ready_task c.king_id pool) tasks) =
        All-imp _
          (λ t p. record {
            challenge = c;
            pool = pool;
            here = m;
            active = e;
            listed = p.0;
            ready = p.1;
            joined = refl;
          })
          _ (All-keep _ (is_ready_task c.king_id pool) tasks (All-Mem tasks)) in
      All-imp _ (λ row p. p.0) _
        (All-keep IsDueRow is_missing _ (All-map IsDueRow (duel_row c solutions) _ due))

  rows_in-IsDueRow :
      (full : Bool) (targets : PoolTargets) (c : Challenge) (o : Option PoolType)
      → Memᴰ c challenges
      → active_pool c.status ≡ o
      → All IsDueRow (rows_in full targets tasks solutions c o)
  unfolding rows_in
  rows_in-IsDueRow full targets c none m e = tt
  rows_in-IsDueRow full targets c (some pool) m e =
      All-if IsDueRow (pool_serves full targets c pool tasks) _ [] (λ _. keep-IsDueRow c pool m e)
        (λ _. tt)

  pub all_rows-IsDueRow :
      (full : Bool) (targets : PoolTargets) (cs : List Challenge)
      → All (λ c. Memᴰ c challenges) cs
      → All IsDueRow (all_rows full targets tasks solutions cs)
  unfolding all_rows
  all_rows-IsDueRow full targets [] h = tt
  all_rows-IsDueRow full targets (c ∷ cs) h =
      All-append IsDueRow (rows_in full targets tasks solutions c (active_pool c.status)) _
        (rows_in-IsDueRow full targets c _ h.0 refl) (all_rows-IsDueRow full targets cs h.1)

  pub jobs_of_row-cases :
      (first_byte : String → String → String → ℕ) (limit count : ℕ) (row : DuelRow)
      (new : List DuelSolveJob)
      → jobs_of_row first_byte limit count row ≡ some new
      → (new ≡ [])
        ⊎ (row.missing_king ≡ true) × (new ≡ duel_job_for_side row Side.king ∷ [])
        ⊎ (row.missing_challenger ≡ true) × (new ≡ duel_job_for_side row Side.challenger ∷ [])
        ⊎ (row.missing_king ≡ true)
          × (row.missing_challenger ≡ true)
          × ((new ≡ duel_job_for_side row Side.king ∷ duel_job_for_side row Side.challenger ∷ [])
              ⊎ (new
                  ≡ duel_job_for_side row Side.challenger ∷ duel_job_for_side row Side.king ∷ []))
  unfolding jobs_of_row duel_side_order
  jobs_of_row-cases first_byte limit count row new e = ground arith

  -- What a row adds: jobs that are due, and no more than there is room for.
  pub jobs_of_row-IsDue :
      (first_byte : String → String → String → ℕ) (limit count : ℕ) (row : DuelRow)
      (new : List DuelSolveJob)
      → IsDueRow row
      → jobs_of_row first_byte limit count row ≡ some new
      → All IsDue new
  jobs_of_row-IsDue first_byte limit count row new r e =
      elim (jobs_of_row-cases first_byte limit count row new e) [
        | inl n ↦ subst (All IsDue) (sym n) tt
        | inr (inl (m, n)) ↦ subst (All IsDue) (sym n) (king_job-IsDue row r m, tt)
        | inr (inr (inl (m, n))) ↦ subst (All IsDue) (sym n) (challenger_job-IsDue row r m, tt)
        | inr (inr (inr (m, m', inl n))) ↦
            subst (All IsDue) (sym n) (king_job-IsDue row r m, (challenger_job-IsDue row r m', tt))
        | inr (inr (inr (m, m', inr n))) ↦
            subst (All IsDue) (sym n) (challenger_job-IsDue row r m', (king_job-IsDue row r m, tt))
      ]

  pub jobs_of_row-length :
      (first_byte : String → String → String → ℕ) (limit count : ℕ) (row : DuelRow)
      (new : List DuelSolveJob)
      → jobs_of_row first_byte limit count row ≡ some new
      → count < limit
      → count + length new ≤ limit
  unfolding jobs_of_row duel_side_order
  jobs_of_row-length first_byte limit count row new e h = ground arith
