-- ===== src/Solver/Scheduler/Lone.antt =====
-- A single free slot, which no duel pair fits.
use ninja_validator.Base.{
  ℕ, ◌+◌, ◌-◌, ◌*◌, ◌≤◌, ◌≡◌, refl, sym, String, Bool, true, false, ◌&&◌, Option, none, some, List,
  [], ◌∷◌, ◌++◌, map, arith, eqb, keep, count_if, length, All, if◌then◌else◌, subst,
}
use ninja_validator.Base.Alls.{
  every_element, All-imp, All-append, All-take, All-keep, All-map, All-if, All-sort_by,
}
use native.Mathlib.Decide.{dec_lt}
use ninja_validator.Floats.{Floats}
use ninja_validator.Duel.Snapshot.{PoolType}
use ninja_validator.Arena.Tables.{Arena, Task, Challenge}
use ninja_validator.Arena.Queries.{PoolTargets, active_pool, is_ready_task}
use ninja_validator.Tasks.Solving.{SolveJob, has_duel_solution}
use ninja_validator.Tasks.Solving.Jobs.{
  DuelRow, DuelSolveJob, duel_row, rows_in, all_rows, row_before, jobs_of_row, add_jobs,
  next_duel_jobs, is_missing, pool_serves,
}
use ninja_validator.Solver.Scheduler.{
  Scheduler, Job, JobKey, job_key, qualification_job, fresh_jobs, pending_work, launches, is_fresh,
  is_phase, duel, qualification, cooling_keys,
}

abbrev IsUnsolved : DuelRow → Type 0
IsUnsolved row = (row.missing_king && row.missing_challenger) ≡ true

add_jobs-empty :
    (first_byte : String → String → String → ℕ) (rows : List DuelRow)
    → All IsUnsolved rows
    → add_jobs first_byte 1 rows [] ≡ []
unfolding add_jobs jobs_of_row
add_jobs-empty first_byte [] h = refl
add_jobs-empty first_byte (row ∷ rows) h = ground (arith, h.0, add_jobs-empty first_byte rows h.1)

duel_row-IsUnsolved : (c : Challenge) (t : Task) → IsUnsolved (duel_row c [] t)
unfolding duel_row has_duel_solution
duel_row-IsUnsolved c t = refl

rows_in-IsUnsolved :
    (full : Bool) (targets : PoolTargets) (tasks : List Task) (c : Challenge) (o : Option PoolType)
    → All IsUnsolved (rows_in full targets tasks [] c o)
unfolding rows_in
rows_in-IsUnsolved full targets tasks c none = tt
rows_in-IsUnsolved full targets tasks c (some pool) =
    let ready = keep (is_ready_task c.king_id pool) tasks in
    let rows = map (duel_row c []) ready in
    All-if IsUnsolved (pool_serves full targets c pool tasks) (keep is_missing rows) []
      (λ _.
        All-imp (λ row. IsUnsolved row × (is_missing row ≡ true)) (λ row p. p.0)
          (keep is_missing rows)
          (All-keep IsUnsolved is_missing rows (
            All-map IsUnsolved (duel_row c []) ready
              (every_element _ (duel_row-IsUnsolved c) ready))))
      (λ _. tt)

all_rows-IsUnsolved :
    (full : Bool) (targets : PoolTargets) (tasks : List Task) (cs : List Challenge)
    → All IsUnsolved (all_rows full targets tasks [] cs)
unfolding all_rows
all_rows-IsUnsolved full targets tasks [] = tt
all_rows-IsUnsolved full targets tasks (c ∷ cs) =
    All-append IsUnsolved (rows_in full targets tasks [] c (active_pool c.status)) _
      (rows_in-IsUnsolved full targets tasks c (active_pool c.status))
      (all_rows-IsUnsolved full targets tasks cs)

-- A job of the second phase.
abbrev IsQualification : Job → Type 0
IsQualification job = is_phase duel (job_key job) ≡ false

no_duel_keys :
    (jobs : List Job) → All IsQualification jobs → count_if (is_phase duel) (map job_key jobs) ≡ 0
no_duel_keys [] h = refl
no_duel_keys (j ∷ jobs) h = ground (arith, h.0, no_duel_keys jobs h.1)

fresh_qualifications :
    (n : ℕ) (exclude : List JobKey) (jobs : List SolveJob)
    → All IsQualification (fresh_jobs n exclude (map qualification_job jobs))
unfolding fresh_jobs
fresh_qualifications n exclude jobs = All-take IsQualification n _ (
    All-imp (λ j. IsQualification j × (is_fresh exclude j ≡ true)) (λ j p. p.0) _
      (All-keep IsQualification (is_fresh exclude) _
        (All-map IsQualification qualification_job jobs (every_element _ (λ _. refl) jobs))))

pending_work-no_duel :
    (duels : ℕ → List DuelSolveJob) (quals : ℕ → List SolveJob) (exclude : List JobKey)
    → duels 1 ≡ []
    → count_if (is_phase duel) exclude ≡ 0
    → All IsQualification (pending_work duels quals 1 exclude)
unfolding pending_work
pending_work-no_duel duels quals exclude e z =
    rw (z, e)
      (fresh_qualifications 1 exclude (quals (1 + count_if (is_phase qualification) exclude)))

-- What is launched into `n` free slots.
abbrev launched : ℕ → (ℕ → List DuelSolveJob) → (ℕ → List SolveJob) → Scheduler → List JobKey
launched n duels quals s =
    if eqb n 0
    then []
    else map job_key (pending_work duels quals n (s.inflight ++ cooling_keys s.cooldown))

module _ (first_byte : String → String → String → ℕ) (text_le : String → String → Bool)
    (fl : Floats) (full : Bool) (targets : PoolTargets) where
  -- The query of the database for duel jobs, by its limit.
  abbrev pub duel_query : Arena fl → ℕ → List DuelSolveJob
  duel_query db limit = next_duel_jobs first_byte limit text_le fl full targets db

  duel_query-empty : (db : Arena fl) → db.solutions ≡ [] → duel_query db 1 ≡ []
  unfolding next_duel_jobs
  duel_query-empty db e = add_jobs-empty first_byte _ (
      All-take _ (1 * 2) _ (
        All-sort_by _ (row_before text_le) _ (
          subst (λ ss. All IsUnsolved (all_rows full targets db.tasks ss db.challenges)) (sym e)
            (all_rows-IsUnsolved full targets db.tasks db.challenges))))

  -- While no duel solution is stored, no duel runs or cools down, and one slot is free at most, a turn
  -- of the scheduler launches no duel, whatever challenge is active.
  pub launches-no_duel :
      (cap : ℕ) (quals : ℕ → List SolveJob) (db : Arena fl) (s : Scheduler)
      → db.solutions ≡ []
      → count_if (is_phase duel) (s.inflight ++ cooling_keys s.cooldown) ≡ 0
      → cap ≤ length s.inflight + 1
      → count_if (is_phase duel) (launches cap (some (duel_query db)) quals s) ≡ 0
  unfolding launches
  launches-no_duel cap quals db s e z h = elim (dec_lt (length s.inflight) cap) [
    | no p ↦ ground arith
    | yes p ↦
        let one : cap - length s.inflight ≡ 1 = omega arith in
        subst (λ n. count_if (is_phase duel) (launched n (duel_query db) quals s) ≡ 0) (sym one)
          (no_duel_keys
            (pending_work (duel_query db) quals 1 (s.inflight ++ cooling_keys s.cooldown))
            (pending_work-no_duel (duel_query db) quals (s.inflight ++ cooling_keys s.cooldown)
              (duel_query-empty db e) z))
  ]
