-- ===== src/Duel/Snapshot.antt =====
-- tau/duel/snapshot.py, tau/duel/scoring.py and the pool numbers of tau/db/status.py: what `decide`
-- reads. Round counts are naturals, scores are floats.
use ninja_validator.Base.{ℕ, ◌+◌, ◌-◌, String, Bool, true, false, Option}
use ninja_validator.Floats.{Floats}

-- `PoolType`
pub data PoolType : Type 0 where
  pool_one pool_two : PoolType

-- `int(pool)`
abbrev pub pool_int : PoolType → ℕ
pool_int pool_one = 1
pool_int pool_two = 2

-- `DuelScoringMethod`
pub data DuelScoringMethod : Type 0 where
  round_wins mean : DuelScoringMethod

-- `scoring_method is DuelScoringMethod.MEAN`
abbrev pub is_mean : DuelScoringMethod → Bool
is_mean mean = true
is_mean round_wins = false

module _ (fl : Floats) where
  open fl use {Float, add, sub}

  pub record Tally : Type 0 where
    pub wins : ℕ
    pub losses : ℕ
    pub ties : ℕ
    pub king_score_mean : Float
    pub challenger_score_mean : Float
    pub score_mean_delta : Float
    pub score_mean_rounds : ℕ
    pub king_total_tokens : Option ℕ
    pub challenger_total_tokens : Option ℕ
    pub token_comparison_rounds : ℕ
    pub king_token_savings_mean : Float
    pub challenger_token_savings_mean : Float
    pub king_token_boost : Float
    pub challenger_token_boost : Float

  -- `Tally.judged`
  abbrev pub judged : Tally → ℕ
  judged t = t.wins + t.losses + t.ties

  -- `Tally.king_combined_score`
  abbrev pub king_combined_score : Tally → Float
  king_combined_score t = add t.king_score_mean t.king_token_boost

  -- `Tally.challenger_combined_score`
  abbrev pub challenger_combined_score : Tally → Float
  challenger_combined_score t = add t.challenger_score_mean t.challenger_token_boost

  -- `Tally.combined_score_delta`
  abbrev pub combined_score_delta : Tally → Float
  combined_score_delta t = sub (add t.score_mean_delta t.challenger_token_boost) t.king_token_boost

  pub record ActiveChallenge : Type 0 where
    pub challenger_submission_id : String
    pub king_submission_id : String
    pub pool : PoolType
    pub pool_target : ℕ
    pub tally : Tally
    pub challenger_registered : Bool

  -- `ActiveChallenge.remaining`: `max(0, a - b)` is the truncated `-`
  abbrev pub remaining : ActiveChallenge → ℕ
  remaining a = a.pool_target - judged a.tally

  pub record ChallengeSnapshot : Type 0 where
    pub reigning_king_submission_id : Option String
    pub active_challenge : Option ActiveChallenge
    pub next_challenger_submission_id : Option String
    pub task_pools_ready : Bool
