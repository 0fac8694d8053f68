-- ===== src/Tests.antt =====
-- Test data: a float type of hundredths, and a small arena in which "k" reigns and "c" challenges.
pub mod Duels
pub mod Tables
pub mod Services
pub mod Queues
pub mod Tasks
pub mod Workers
pub mod Requests
pub mod Tokens
pub mod Registrations
pub mod Sampling
pub mod Screening
pub mod Qualifying
use ninja_validator.Base.{
  ℕ, ◌+◌, ◌-◌, ◌*◌, ◌/◌, String, true, false, Bool, Option, none, some, List, [], ◌∷◌, ltb, leb,
}
use ninja_validator.Floats.{Floats}
use ninja_validator.Duel.Snapshot.{
  Tally, ActiveChallenge, PoolType, pool_one, pool_two, round_wins, mean, DuelScoringMethod,
}
use ninja_validator.Duel.Tokens.{TokenCount, TokenEfficiencyRound, TokenEfficiencyConfig}
use ninja_validator.Arena.Tables.{
  Arena, King, Challenge, ChallengeStatus, Task, TaskStatus, Judgement, Submission,
  SubmissionStatus, Registration,
}
use ninja_validator.Arena.Queries.{PoolTargets}
use ninja_validator.Resolver.Tick.{DuelResolverConfig}

abbrev total : List ℕ → ℕ
total [] = 0
total (x ∷ xs) = x + total xs

-- Numbers counted in hundredths, cut off at 0.
abbrev pub hundredths : Floats
hundredths = record {
  Float = ℕ;
  nought = 0;
  unit = 100;
  of_int = λ n. n * 100;
  add = λ x y. x + y;
  sub = λ x y. x - y;
  mul = λ x y. x * y / 100;
  div = λ x y. x * 100 / y;
  ratio = λ a b. a * 100 / b;
  sum = total;
  to_int = λ x. x / 100;
  is_finite = λ _. true;
  lt = ltb;
  le = leb;
}

-- A tally with these wins, losses and ties.
abbrev pub tally_with : ℕ → ℕ → ℕ → Tally hundredths
tally_with w l t = record {
  wins = w;
  losses = l;
  ties = t;
  king_score_mean = 50;
  challenger_score_mean = 70;
  score_mean_delta = 20;
  score_mean_rounds = w + l + t;
  king_total_tokens = none;
  challenger_total_tokens = none;
  token_comparison_rounds = 0;
  king_token_savings_mean = 0;
  challenger_token_savings_mean = 0;
  king_token_boost = 0;
  challenger_token_boost = 5;
}

abbrev pub challenge_with : PoolType → ℕ → Tally hundredths → ActiveChallenge hundredths
challenge_with pool target tally = record {
  challenger_submission_id = "c";
  king_submission_id = "k";
  pool = pool;
  pool_target = target;
  tally = tally;
  challenger_registered = true;
}

abbrev pub config : DuelResolverConfig hundredths
config = record {
  scoring_method = round_wins;
  round_win_margin = 0;
  mean_score_margin = 10;
  token_bonus_enabled = true;
  token_score_tolerance = 5;
  token_min_score = 20;
  token_bonus_multiplier = 100;
  promotion_publish_required = true;
}

abbrev pub one_each : PoolTargets
one_each = record { pool_one = 1; pool_two = 1 }

abbrev pub won_by : String → String → Judgement hundredths
won_by winner task = record {
  task_id = task;
  king_submission_id = "k";
  challenger_submission_id = "c";
  llm_winner = some winner;
  king_score = some 40;
  challenger_score = some 60;
  error = none;
}

abbrev pub task_in : PoolType → String → Task
task_in pool id = record {
  task_id = id;
  king_id = "k";
  pool_type = pool;
  status_id = TaskStatus.qualified;
  problem_statement = "fix it";
  reference_patch = "+ fixed";
  repo_clone_url = "url";
  parent_sha = "p";
  commit_sha = "q";
  content_fingerprint = id;
  created_at = 1;
}

-- The challenger has won the only task of pool one.
abbrev pub arena : Arena hundredths
arena = record {
  kings = record { king_id = "k"; king_from = 10 } ∷ [];
  challenges =
      record { challenger_submission_id = "c"; king_id = "k"; status = ChallengeStatus.pool_one }
      ∷ [];
  resolutions = [];
  submissions =
      record {
        submission_id = "c";
        hotkey = "hot";
        block = 7;
        status_id = some SubmissionStatus.eligible;
      }
      ∷ [];
  registrations =
      record { uid = 3; ss58_hot = "hot"; ss58_cold = "cold"; block = 5; block_date = 60 } ∷ [];
  tasks = task_in pool_one "t1" ∷ task_in pool_two "t2" ∷ [];
  judgements = won_by "challenger" "t1" ∷ [];
  solutions = [];
  screenings = [];
  task_solutions = [];
  generation_failures = [];
  qualifications = [];
}

abbrev pub two_rounds : List (TokenEfficiencyRound hundredths)
two_rounds =
    record {
      king_score = some 60;
      challenger_score = some 60;
      king_tokens = TokenCount.count 100;
      challenger_tokens = TokenCount.count 50;
      judgement_valid = true;
    }
    ∷ record {
      king_score = some 60;
      challenger_score = none;
      king_tokens = TokenCount.count 30;
      challenger_tokens = TokenCount.missing;
      judgement_valid = true;
    }
    ∷ []

abbrev pub efficiency : TokenEfficiencyConfig hundredths
efficiency = record { enabled = true; score_tolerance = 5; min_score = 20; bonus_multiplier = 100 }
