-- ===== src/Tests/Workers.antt =====
-- Runs of the solver's scheduler and of the judge.
use ninja_validator.Base.{
  ℕ, ◌≤◌, ◌≡◌, refl, String, String-discrete, Bool, true, false, some, List, [], ◌∷◌, arith, eqb,
  count_if, length, All, ◌==◌, string_key,
}
use ninja_validator.Judging.Fallback.{Attempt, answered, raised, judge_with_retries}
use ninja_validator.Judging.Fallback.Attempts.{IsEnded, judge_with_retries-ends}
use ninja_validator.Judging.Worker.{reconcile, spawn, Inflight, same_judge_key}
use ninja_validator.Judging.Worker.Reconcile.{IsBounded, IsReconciled, reconcile_exact}
use ninja_validator.Solver.Scheduler.{
  Scheduler, JobKey, job_key, qualification_job, tick, collect, launches, is_phase, duel,
}
use ninja_validator.Solver.Scheduler.Slots.{IsIdle, tick_bounded}
use ninja_validator.Solver.Scheduler.Lone.{duel_query, launches-no_duel}
use ninja_validator.Tasks.Judgments.{JudgeRequest}
use ninja_validator.Tasks.Solving.{SolveJob}
use ninja_validator.Tasks.Solving.Jobs.{DuelSolveJob, next_duel_jobs}
use ninja_validator.Tests.{hundredths}
use ninja_validator.Tests.Tasks.{busy, two_each, no_byte, any_order}

abbrev job : String → SolveJob
job id = record {
  task_id = id;
  submission_id = "k";
  problem_statement = "fix it";
  repo_clone_url = "url";
  base_commit = "p";
}

abbrev queued : ℕ → List SolveJob
queued n = job "t4" ∷ job "t5" ∷ []

-- One of two slots is taken.
abbrev half_full : Scheduler
half_full = record { inflight = job_key (qualification_job (job "t4")) ∷ []; cooldown = [] }

abbrev nothing_done : JobKey → Bool
nothing_done k = false

abbrev duels : ℕ → List DuelSolveJob
duels = duel_query no_byte any_order hundredths false two_each busy

tick_bounded_example :
    (length (tick 2 30 100 nothing_done (some duels) queued half_full).inflight ≤ 2)
    × All
        (IsIdle (collect 100 30 nothing_done half_full))
        (launches 2 (some duels) queued (collect 100 30 nothing_done half_full))
tick_bounded_example =
    tick_bounded 2 30 100 nothing_done (some duels) queued half_full (omega arith)

-- The challenger's duel waits, and another qualification takes the slot.
launches-no_duel_example : count_if (is_phase duel) (launches 2 (some duels) queued half_full) ≡ 0
launches-no_duel_example =
    launches-no_duel no_byte any_order hundredths false two_each 2 queued busy half_full refl refl
      (omega arith)

one_launched : length (launches 2 (some duels) queued half_full) ≡ 1
unfolding launches next_duel_jobs String-discrete
one_launched = refl

abbrev request : String → JudgeRequest
request task = record {
  task_id = task;
  problem_statement = "fix it";
  reference_patch = "+ fixed";
  king_submission_id = "k";
  king_patch = "a";
  challenger_submission_id = "c";
  challenger_patch = "b";
}

abbrev judging : List Inflight
judging = spawn (request "t1") ∷ []

judging-IsBounded : IsBounded 2 judging
unfolding same_judge_key
judging-IsBounded = record { few = omega arith; once = λ k. ground arith }

reconcile_exact_example :
    IsBounded 2 (reconcile 2 (request "t2" ∷ request "t3" ∷ []) judging)
    × IsReconciled 2
        (request "t2" ∷ request "t3" ∷ [])
        judging
        (reconcile 2 (request "t2" ∷ request "t3" ∷ []) judging)
reconcile_exact_example =
    reconcile_exact 2 (request "t2" ∷ request "t3" ∷ []) judging judging-IsBounded

-- The first client fails for good, the second one answers at its second attempt.
abbrev ask : ℕ → ℕ → Attempt String
ask client n = elim (eqb n 3) [
  | true ↦ answered "tie"
  | false ↦ raised (elim (eqb client 0) [ true ↦ "route" | false ↦ "busy" ])
]

abbrev is_route : String → Bool
is_route m = m == "route"

judge_with_retries-ends_example :
    IsEnded String ℕ ask is_route
      (0 ∷ 1 ∷ [])
      4
      (judge_with_retries String ℕ ask is_route (0 ∷ 1 ∷ []) 4)
judge_with_retries-ends_example = judge_with_retries-ends String ℕ ask is_route (0 ∷ 1 ∷ []) 4

three_attempts :
    judge_with_retries String ℕ ask is_route (0 ∷ 1 ∷ []) 4
    ≡ record { judgment = some "tie"; counter = 3; last_error = some "busy" }
unfolding judge_with_retries String-discrete
three_attempts = refl
