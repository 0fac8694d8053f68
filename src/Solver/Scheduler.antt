-- ===== src/Solver/Scheduler.antt =====
-- tau/workers/task_solver/loop.py: the scheduler. Which of the futures are done, and the jobs that the
-- database offers, come from outside; a future is told by its key.
pub mod Slots
pub mod Lone
use ninja_validator.Base.{
  ℕ, zero, suc, ◌+◌, ◌-◌, String, Bool, true, false, not, ◌&&◌, ◌||◌, Option, none, some, List, [],
  ◌∷◌, ◌++◌, map, ltb, leb, eqb, ◌==◌, string_key, keep, count_if, take, length, if◌then◌else◌,
}
use ninja_validator.Tasks.Solving.{SolveJob}
use ninja_validator.Tasks.Solving.Jobs.{DuelSolveJob}

pub data Phase : Type 0 where
  duel qualification : Phase

pub record JobKey : Type 0 where
  pub phase : Phase
  pub task_id : String
  pub submission_id : String
  pub challenger_submission_id : String

pub data Job : Type 0 where
  duel_job : DuelSolveJob → Job
  qualification_job : SolveJob → Job

-- `_job_key`
abbrev pub job_key : Job → JobKey
job_key (duel_job j) = record {
  phase = duel;
  task_id = j.task_id;
  submission_id = j.submission_id;
  challenger_submission_id = j.challenger_submission_id;
}
job_key (qualification_job j) = record {
  phase = qualification;
  task_id = j.task_id;
  submission_id = j.submission_id;
  challenger_submission_id = "";
}

abbrev pub same_phase : Phase → Phase → Bool
same_phase duel duel = true
same_phase qualification qualification = true
same_phase _ _ = false

unfoldable pub same_job_key : JobKey → JobKey → Bool
same_job_key a b =
    (same_phase a.phase b.phase && a.task_id == b.task_id)
    && (a.submission_id == b.submission_id
        && a.challenger_submission_id == b.challenger_submission_id)

unfoldable pub has_key : JobKey → List JobKey → Bool
unfolding same_job_key
has_key k [] = false
has_key k (x ∷ xs) = same_job_key k x || has_key k xs

abbrev pub is_phase : Phase → JobKey → Bool
is_phase phase k = same_phase k.phase phase

abbrev pub is_fresh : List JobKey → Job → Bool
is_fresh exclude job = not (has_key (job_key job) exclude)

-- The first of a list's jobs that are not excluded.
unfoldable pub fresh_jobs : ℕ → List JobKey → List Job → List Job
unfolding has_key
fresh_jobs limit exclude jobs = take limit (keep (is_fresh exclude) jobs)

-- `_pending_work`, from the two queries of the database.
unfoldable pub pending_work :
    (ℕ → List DuelSolveJob) → (ℕ → List SolveJob) → ℕ → List JobKey → List Job
unfolding fresh_jobs
pending_work next_duel_jobs next_qualification_jobs limit exclude =
    let duel_query_limit = limit + count_if (is_phase duel) exclude in
    let duel_jobs = fresh_jobs limit exclude (map duel_job (next_duel_jobs duel_query_limit)) in
    let remaining = limit - length duel_jobs in
    let qual_query_limit = remaining + count_if (is_phase qualification) exclude in
    let qual_jobs =
      if eqb remaining 0
      then []
      else fresh_jobs remaining exclude
          (map qualification_job (next_qualification_jobs qual_query_limit)) in
    duel_jobs ++ qual_jobs

-- The keys of the futures that run, and for each cooling key the instant at which it ends.
pub record Scheduler : Type 0 where
  pub inflight : List JobKey
  pub cooldown : List (JobKey × ℕ)

unfoldable pub drop_cooldown : JobKey → List (JobKey × ℕ) → List (JobKey × ℕ)
unfolding same_job_key
drop_cooldown k [] = []
drop_cooldown k ((x, t) ∷ xs) =
    let rest = drop_cooldown k xs in if same_job_key x k then rest else (x, t) ∷ rest

-- `cooldown[key] = until` for each of the keys.
unfoldable pub cool_all : ℕ → List JobKey → List (JobKey × ℕ) → List (JobKey × ℕ)
unfolding drop_cooldown
cool_all until [] cooldown = cooldown
cool_all until (k ∷ ks) cooldown = cool_all until ks ((k, until) ∷ drop_cooldown k cooldown)

abbrev pub cooling_keys : List (JobKey × ℕ) → List JobKey
cooling_keys [] = []
cooling_keys ((k, t) ∷ xs) = k ∷ cooling_keys xs

abbrev pub is_running : (JobKey → Bool) → JobKey → Bool
is_running is_done k = not (is_done k)

abbrev pub is_cooling : ℕ → JobKey × ℕ → Bool
is_cooling now (k, until) = ltb now until

-- The futures that are done leave, and their keys cool down.
unfoldable pub collect : ℕ → ℕ → (JobKey → Bool) → Scheduler → Scheduler
unfolding cool_all
collect now poll_seconds is_done s = record {
  inflight = keep (is_running is_done) s.inflight;
  cooldown =
      keep (is_cooling now) (cool_all (now + poll_seconds) (keep is_done s.inflight) s.cooldown);
}

-- The keys launched by a tick; a query that raises an exception launches none.
unfoldable pub launches :
    ℕ → Option (ℕ → List DuelSolveJob) → (ℕ → List SolveJob) → Scheduler → List JobKey
unfolding pending_work
launches cap none next_qualification_jobs s = []
launches cap (some next_duel_jobs) next_qualification_jobs s =
    let slots = cap - length s.inflight in
    if eqb slots 0
    then []
    else map job_key (
        pending_work next_duel_jobs next_qualification_jobs slots
          (s.inflight ++ cooling_keys s.cooldown))

-- One turn of `run`'s loop.
unfoldable pub tick :
    ℕ
    → ℕ
    → ℕ
    → (JobKey → Bool)
    → Option (ℕ → List DuelSolveJob)
    → (ℕ → List SolveJob)
    → Scheduler
    → Scheduler
unfolding collect launches
tick cap poll_seconds now is_done next_duel_jobs next_qualification_jobs s =
    let s' = collect now poll_seconds is_done s in
    record s' { inflight = s'.inflight ++ launches cap next_duel_jobs next_qualification_jobs s' }
