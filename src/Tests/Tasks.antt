-- ===== src/Tests/Tasks.antt =====
-- Runs of the task workers on a small arena.
use ninja_validator.Base.{
  ℕ, ◌+◌, ◌-◌, ◌≡◌, ◌↔◌, ◌⊎◌, refl, String, String-discrete, true, false, Bool, none, some, List,
  [], ◌∷◌, arith, length,
}
use ninja_validator.Duel.Snapshot.{pool_one, pool_two, PoolType}
use ninja_validator.Arena.Tables.{Arena, Task, TaskStatus, TaskScreening}
use ninja_validator.Arena.Queries.{PoolTargets, reigning_king, latest_king}
use ninja_validator.Generator.Workqueue.{PoolDeficit, needed}
use ninja_validator.Resolver.Run.{System, Reach}
use ninja_validator.Tasks.Rows.{task_of, screening_of}
use ninja_validator.Tasks.Generation.{pending_pool_deficits}
use ninja_validator.Tasks.Generation.Deficits.{
  pending_pool_deficits_exact, fair_share, other_pool, falls_short, count_at,
}
use ninja_validator.Tasks.Screening.{
  Outcome, tables_after, FinalScreeningOutcome, save_decision, lock_pending_task,
}
use ninja_validator.Tasks.Screening.Errors.{ScreeningFailureSave, retry_is_due}
use ninja_validator.Tasks.Screening.Backoff.{
  IsDue, fail_until_settled, fail_until_settled-exhausted,
}
use ninja_validator.Tasks.Solving.Jobs.{next_duel_jobs}
use ninja_validator.Tasks.Solving.Missing.{AreDue, next_duel_jobs-AreDue}
use ninja_validator.Tasks.Invariant.{IsStocked}
use ninja_validator.Tasks.Invariant.Raises.{IsOutside, IsAwaited, save_decision-fails}
use ninja_validator.Tasks.Run.{RunTo, screen, work}
use ninja_validator.Tasks.Run.Duels.{RunTo-Reach}
use ninja_validator.Tasks.Run.Stocked.{RunTo-IsStocked}
use ninja_validator.Tests.{hundredths, arena, task_in, config}

abbrev pub two_each : PoolTargets
two_each = record { pool_one = 2; pool_two = 2 }

abbrev screened : Task
screened = record (task_in pool_one "t3") { status_id = TaskStatus.pending_screen }

abbrev screening : TaskScreening hundredths
screening = record {
  task_id = "t3";
  king_submission_id = "k";
  qualification_solution = "+ tried";
  king_score = none;
  max_score = none;
  reason = none;
  failed_runs = 1;
  next_retry_at = some 30;
}

-- A task of pool one waits for its screen, and one of pool two is a candidate.
abbrev pub busy : Arena hundredths
busy = record arena {
  tasks =
      task_in pool_one "t1"
      ∷ screened
      ∷ record (task_in pool_two "t4") { status_id = TaskStatus.candidate }
      ∷ [];
  screenings = screening ∷ [];
  judgements = [];
}

busy-IsStocked : IsStocked hundredths two_each busy
unfolding task_of screening_of
busy-IsStocked = record { admitted = λ king pool. ground arith; paired = λ id. ground arith }

abbrev qualified : Arena hundredths
qualified = tables_after busy (
    save_decision hundredths "t3" "k" FinalScreeningOutcome.qualified (some 40) 60 "hard" two_each
      busy)

abbrev start : System hundredths
start = record { db = busy; pending = none }

run : RunTo hundredths config two_each start (record start { db = qualified })
run =
    RunTo.next RunTo.here (
      work qualified (screen "t3" "k" FinalScreeningOutcome.qualified (some 40) 60 "hard" refl)
        refl)

RunTo-Reach_example : Reach hundredths config two_each start (record start { db = qualified })
RunTo-Reach_example = RunTo-Reach hundredths config two_each run

RunTo-IsStocked_example : IsStocked hundredths two_each qualified
RunTo-IsStocked_example = RunTo-IsStocked hundredths config two_each run busy-IsStocked

-- The greatest score is above 1.
save_decision-fails_example :
    (save_decision hundredths "t3" "k" FinalScreeningOutcome.qualified
        (some 40)
        160
        "hard"
        two_each
        busy
      ≡ Outcome.failed)
    ↔ (((x : ℕ) × (some 40 ≡ some x) × IsOutside hundredths two_each x)
        ⊎ (IsAwaited hundredths two_each "t3" "k" busy × IsOutside hundredths two_each 160))
save_decision-fails_example =
    save_decision-fails hundredths two_each "t3" "k" FinalScreeningOutcome.qualified (some 40) 160
      "hard" busy busy-IsStocked

save_decision_raises :
    save_decision hundredths "t3" "k" FinalScreeningOutcome.qualified
      (some 40)
      160
      "hard"
      two_each
      busy
    ≡ Outcome.failed
unfolding save_decision reigning_king latest_king lock_pending_task task_of screening_of
    String-discrete
save_decision_raises = refl

busy-IsDue : IsDue hundredths "t3" "k" 3 10 60 30 busy screened screening
unfolding reigning_king latest_king task_of screening_of retry_is_due String-discrete
busy-IsDue = record { reigns = refl; task = refl; awaits = refl; screening = refl; due = refl }

fail_until_settled-exhausted_example :
    (db' : Arena hundredths) × (fail_until_settled hundredths "t3" "k" 3 10 60 2 30 busy
      ≡ some (ScreeningFailureSave.exhausted 3, db'))
    × (task_of "t3" db'.tasks ≡ some (record screened { status_id = TaskStatus.disqualified }))
fail_until_settled-exhausted_example =
    fail_until_settled-exhausted hundredths "t3" "k" 3 10 60 2 30 busy screened screening busy-IsDue
      (omega arith) (omega arith) (omega arith) (omega arith)

busy_king : reigning_king busy.kings ≡ some "k"
unfolding reigning_king latest_king
busy_king = refl

pending_pool_deficits_exact_example :
    (ds : List PoolDeficit) × (pending_pool_deficits hundredths two_each 5 busy ≡ some ds)
    × ((pool : PoolType)
        → needed "k" pool ds
          ≡ fair_share 5
              (falls_short "k" two_each busy.tasks pool)
              (falls_short "k" two_each busy.tasks (other_pool pool))
              pool
            - (count_at "k" pool TaskStatus.candidate busy.tasks
                + count_at "k" pool TaskStatus.pending_screen busy.tasks))
pending_pool_deficits_exact_example =
    pending_pool_deficits_exact hundredths two_each 5 busy "k" (omega arith) busy_king

abbrev pub no_byte : String → String → String → ℕ
no_byte a b c = 0

abbrev pub any_order : String → String → Bool
any_order a b = true

next_duel_jobs-AreDue_example :
    AreDue busy.challenges busy.tasks busy.solutions 4
      (next_duel_jobs no_byte 4 any_order hundredths false two_each busy)
next_duel_jobs-AreDue_example =
    next_duel_jobs-AreDue no_byte 4 any_order hundredths false two_each busy

two_jobs : length (next_duel_jobs no_byte 4 any_order hundredths false two_each busy) ≡ 2
unfolding next_duel_jobs String-discrete
two_jobs = refl
