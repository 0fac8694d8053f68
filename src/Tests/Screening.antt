-- ===== src/Tests/Screening.antt =====
-- A screening whose first client's route fails, and whose second client answers.
use ninja_validator.Base.{
  ℕ, suc, ◌*◌, ◌<◌, ◌≡◌, refl, String-discrete, max, none, List, [], ◌∷◌, length, arith,
}
use native.Mathlib.Decide.{ℕ_discrete}
use ninja_validator.Duel.Snapshot.{pool_one}
use ninja_validator.Arena.Queries.{reigning_king, latest_king}
use ninja_validator.Judging.Safety.{detect_injection}
use ninja_validator.Tasks.Screening.Errors.{TaskScreenRequest}
use ninja_validator.Screener.Runner.{
  Client, scored, timed_out, raised, finished, screen_with_fallback,
}
use ninja_validator.Screener.Runner.Bounds.{IsScreening, screen_with_fallback-IsScreening}
use ninja_validator.Screener.Worker.{
  TaskScreenerConfig, TaskScreenMode, save_screening_decision, screen_and_save,
}
use ninja_validator.Screener.Worker.Admitted.{ready_count, IsAdmitted, screen_and_save-IsAdmitted}
use ninja_validator.Tests.{hundredths}
use ninja_validator.Tests.Tasks.{two_each, busy}

abbrev same : List ℕ → List ℕ
same text = text

-- The second client runs out of time first.
abbrev clients : List (Client ℕ)
clients =
    (λ attempt. raised "provider returned error")
    ∷ (λ attempt. elim attempt [ suc (suc n) ↦ scored 40 | _ ↦ timed_out ])
    ∷ []

second_answers :
    screen_with_fallback same none 3 clients
    ≡ (finished 40, record { made = (2, 1) ∷ (1, 1) ∷ (1, 0) ∷ []; disabled_routes = 0 ∷ [] })
unfolding screen_with_fallback ℕ_discrete
second_answers = refl

screen_with_fallback-IsScreening_example :
    IsScreening same clients none
      (max 1 3 * length clients)
      (screen_with_fallback same none 3 clients).0
      (screen_with_fallback same none 3 clients).1
screen_with_fallback-IsScreening_example = screen_with_fallback-IsScreening same clients none 3

abbrev config : TaskScreenerConfig hundredths
config = record {
  mode = TaskScreenMode.enforce;
  max_king_score = 70;
  attempts = 3;
  max_failed_runs = 3;
  retry_base = 10;
  retry_max = 60;
  pool_targets = two_each;
}

abbrev request : TaskScreenRequest
request = record {
  task_id = "t3";
  king_submission_id = "k";
  problem_statement = "p";
  reference_patch = "+ r";
  qualification_solution = "+ tried";
}

one_more :
    ready_count hundredths "k" pool_one busy
    < ready_count hundredths "k" pool_one
        (screen_and_save hundredths same config clients none 30 request busy)
unfolding screen_and_save save_screening_decision detect_injection screen_with_fallback
    reigning_king latest_king String-discrete ℕ_discrete
one_more = omega arith

screen_and_save-IsAdmitted_example :
    IsAdmitted hundredths "k" pool_one config request busy same clients none
screen_and_save-IsAdmitted_example =
    screen_and_save-IsAdmitted hundredths "k" pool_one config request busy same clients none 30
      one_more
