-- ===== src/Solver/Scheduler/Slots.antt =====
-- The scheduler never runs more jobs than it has containers, nor one that runs or cools down.
use ninja_validator.Base.{
  ℕ, ◌+◌, ◌-◌, ◌≤◌, ◌≡◌, Bool, false, Option, none, some, List, [], ◌++◌, map, arith, eqb, keep,
  count_if, length, length-append, length-take, length-keep, length-map, All,
}
use ninja_validator.Base.Alls.{
  every_element, All-imp, All-append, All-take, All-keep, All-map, All-if,
}
use ninja_validator.Tasks.Solving.{SolveJob}
use ninja_validator.Tasks.Solving.Jobs.{DuelSolveJob}
use ninja_validator.Solver.Scheduler.{
  Scheduler, Job, JobKey, job_key, duel_job, qualification_job, has_key, is_fresh, is_running,
  fresh_jobs, pending_work, collect, launches, tick, cooling_keys, is_phase, duel, qualification,
}

length-fresh_jobs :
    (n : ℕ) (exclude : List JobKey) (jobs : List Job) → length (fresh_jobs n exclude jobs) ≤ n
unfolding fresh_jobs
length-fresh_jobs n exclude jobs = length-take n (keep (is_fresh exclude) jobs)

-- A job whose key is not excluded.
abbrev IsNew : List JobKey → Job → Type 0
IsNew exclude job = has_key (job_key job) exclude ≡ false

fresh_jobs-IsNew :
    (n : ℕ) (exclude : List JobKey) (jobs : List Job)
    → All (IsNew exclude) (fresh_jobs n exclude jobs)
unfolding fresh_jobs
fresh_jobs-IsNew n exclude jobs = All-take _ n _ (
    All-imp _ (λ j p. ground (arith, p.1)) _
      (All-keep (λ _. Unit {0}) (is_fresh exclude) jobs (every_element _ (λ _. tt) jobs)))

module _ (duels : ℕ → List DuelSolveJob) (quals : ℕ → List SolveJob) where
  -- The jobs of either phase that `pending_work` takes.
  abbrev offered_duels : ℕ → List JobKey → List Job
  offered_duels n exclude = map duel_job (duels (n + count_if (is_phase duel) exclude))

  abbrev left : ℕ → List JobKey → ℕ
  left n exclude = n - length (fresh_jobs n exclude (offered_duels n exclude))

  abbrev offered : ℕ → List JobKey → List Job
  offered n exclude =
      map qualification_job (quals (left n exclude + count_if (is_phase qualification) exclude))

  length-pending_work :
      (n : ℕ) (exclude : List JobKey) → length (pending_work duels quals n exclude) ≤ n
  unfolding pending_work
  length-pending_work n exclude =
      let first = fresh_jobs n exclude (offered_duels n exclude) in
      ground (
        arith,
        length-append first [],
        length-append first (fresh_jobs (left n exclude) exclude (offered n exclude)),
        length-fresh_jobs n exclude (offered_duels n exclude),
        length-fresh_jobs (left n exclude) exclude (offered n exclude),
      )

  pending_work-IsNew :
      (n : ℕ) (exclude : List JobKey) → All (IsNew exclude) (pending_work duels quals n exclude)
  unfolding pending_work
  pending_work-IsNew n exclude =
      All-append (IsNew exclude) _ _ (fresh_jobs-IsNew n exclude (offered_duels n exclude)) (
        All-if (IsNew exclude) (eqb (left n exclude) 0) []
          (fresh_jobs (left n exclude) exclude (offered n exclude)) (λ _. tt)
          λ _. fresh_jobs-IsNew (left n exclude) exclude (offered n exclude))

-- A key that neither runs nor cools down.
abbrev pub IsIdle : Scheduler → JobKey → Type 0
IsIdle s k = has_key k (s.inflight ++ cooling_keys s.cooldown) ≡ false

length-launches :
    (cap : ℕ) (duels : Option (ℕ → List DuelSolveJob)) (quals : ℕ → List SolveJob) (s : Scheduler)
    → length s.inflight ≤ cap
    → length s.inflight + length (launches cap duels quals s) ≤ cap
unfolding launches
length-launches cap none quals s h = omega arith
length-launches cap (some duels) quals s h =
    let exclude = s.inflight ++ cooling_keys s.cooldown in
    let work = pending_work duels quals (cap - length s.inflight) exclude in
    ground (
      arith,
      h,
      length-map job_key work,
      length-pending_work duels quals (cap - length s.inflight) exclude,
    )

launches-IsIdle :
    (cap : ℕ) (duels : Option (ℕ → List DuelSolveJob)) (quals : ℕ → List SolveJob) (s : Scheduler)
    → All (IsIdle s) (launches cap duels quals s)
unfolding launches
launches-IsIdle cap none quals s = tt
launches-IsIdle cap (some duels) quals s =
    let slots = cap - length s.inflight in
    let work = pending_work duels quals slots (s.inflight ++ cooling_keys s.cooldown) in
    All-if (IsIdle s) (eqb slots 0) [] (map job_key work) (λ _. tt)
      λ _.
        All-map (IsIdle s) job_key work
          (pending_work-IsNew duels quals slots (s.inflight ++ cooling_keys s.cooldown))

-- A turn of the scheduler that begins with at most `cap` jobs running ends with at most `cap`, and it
-- launches no job whose key still runs or cools down when the finished jobs have been collected.
pub tick_bounded :
    (cap poll_seconds now : ℕ) (is_done : JobKey → Bool) (duels : Option (ℕ → List DuelSolveJob))
    (quals : ℕ → List SolveJob) (s : Scheduler)
    → length s.inflight ≤ cap
    → (length (tick cap poll_seconds now is_done duels quals s).inflight ≤ cap)
      × All
          (IsIdle (collect now poll_seconds is_done s))
          (launches cap duels quals (collect now poll_seconds is_done s))
unfolding tick collect
tick_bounded cap poll_seconds now is_done duels quals s h =
    let s' = collect now poll_seconds is_done s in
    let few = length-keep (is_running is_done) s.inflight in
    (
      omega (
        arith,
        few,
        h,
        length-append s'.inflight (launches cap duels quals s'),
        length-launches cap duels quals s' (omega (arith, few, h)),
      ),
      launches-IsIdle cap duels quals s',
    )
