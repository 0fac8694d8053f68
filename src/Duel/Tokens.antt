-- ===== src/Duel/Tokens.antt =====
-- tau/duel/token_efficiency.py: the symmetric token bonus of a pool.
pub mod Totals
pub mod Symmetry
use ninja_validator.Base.{
  ℕ, ◌+◌, Bool, true, false, not, ◌&&◌, ◌||◌, Option, none, some, List, [], ◌∷◌, eqb, is_some,
  if◌then◌else◌,
}
use ninja_validator.Floats.{Floats}

-- A usage count as it reaches Python: missing, a `bool`, or an `int` of either sign
-- (`negative n` is -(n + 1)).
pub data TokenCount : Type 0 where
  missing : TokenCount
  boolean : Bool → TokenCount
  count : ℕ → TokenCount
  negative : ℕ → TokenCount

-- `_valid_tokens`
unfoldable pub valid_tokens : TokenCount → Option ℕ
valid_tokens missing = none
valid_tokens (boolean b) = none
valid_tokens (count n) = some n
valid_tokens (negative n) = none

module _ (fl : Floats) where
  open fl use {Float, nought, unit, of_int, add, sub, mul, div, ratio, lt, le, is_finite}

  pub record TokenEfficiencyConfig : Type 0 where
    pub enabled : Bool
    pub score_tolerance : Float
    pub min_score : Float
    pub bonus_multiplier : Float

  -- `__post_init__`: whether the values are accepted
  unfoldable pub config_accepted : TokenEfficiencyConfig → Bool
  config_accepted c =
      (le nought c.score_tolerance && le c.score_tolerance unit)
      && ((le nought c.min_score && le c.min_score unit)
          && not (not (is_finite c.bonus_multiplier) || lt c.bonus_multiplier nought))

  pub record TokenEfficiencyRound : Type 0 where
    pub king_score : Option Float
    pub challenger_score : Option Float
    pub king_tokens : TokenCount
    pub challenger_tokens : TokenCount
    pub judgement_valid : Bool

  pub record TokenEfficiencyStats : Type 0 where
    pub king_total_tokens : Option ℕ
    pub challenger_total_tokens : Option ℕ
    pub token_comparison_rounds : ℕ
    pub king_savings_mean : Float
    pub challenger_savings_mean : Float
    pub king_boost : Float
    pub challenger_boost : Float

  -- Python's `max(0.0, x)`
  abbrev pub max_nought : Float → Float
  max_nought x = if lt nought x then x else nought

  -- `_task_saving`
  unfoldable pub task_saving :
      (own_score opponent_score : Float) (own_tokens opponent_tokens : ℕ)
      → TokenEfficiencyConfig
      → Float
  task_saving own_score opponent_score own_tokens opponent_tokens config =
      if lt own_score config.min_score
      then nought
      else if lt own_score (sub opponent_score config.score_tolerance)
      then nought
      else if eqb opponent_tokens 0
      then nought
      else max_nought (sub unit (ratio own_tokens opponent_tokens))

  -- The local variables of the loop.
  pub record Sums : Type 0 where
    pub king_total : ℕ
    pub challenger_total : ℕ
    pub king_total_complete : Bool
    pub challenger_total_complete : Bool
    pub comparison_rounds : ℕ
    pub king_savings : Float
    pub challenger_savings : Float

  -- The totals and their flags, at the top of the loop's body.
  unfoldable pub add_totals : Option ℕ → Option ℕ → Sums → Sums
  add_totals king challenger s = record s {
    king_total = elim king [ some n ↦ s.king_total + n | none ↦ s.king_total ];
    king_total_complete = elim king [ some n ↦ s.king_total_complete | none ↦ false ];
    challenger_total = elim challenger [
      | some n ↦ s.challenger_total + n
      | none ↦ s.challenger_total
    ];
    challenger_total_complete = elim challenger [
      | some n ↦ s.challenger_total_complete
      | none ↦ false
    ];
  }

  -- The savings of a round whose two scores can be used.
  unfoldable pub add_savings :
      TokenEfficiencyConfig → Bool → Option Float → Option Float → ℕ → ℕ → Sums → Sums
  add_savings config true (some king_score) (some challenger_score) king challenger s = record s {
    king_savings =
        add s.king_savings (task_saving king_score challenger_score king challenger config);
    challenger_savings =
        add s.challenger_savings (task_saving challenger_score king_score challenger king config);
  }
  add_savings config _ _ _ king challenger s = s

  -- The rest of the body, with its `continue`s.
  unfoldable pub compare_round :
      TokenEfficiencyConfig → TokenEfficiencyRound → Option ℕ → Option ℕ → Sums → Sums
  unfolding add_savings
  compare_round config r (some king) (some challenger) s =
      let t = record s { comparison_rounds = s.comparison_rounds + 1 } in
      if not config.enabled
      then t
      else add_savings config r.judgement_valid r.king_score r.challenger_score king challenger t
  compare_round config r _ _ s = s

  unfoldable pub add_round : TokenEfficiencyConfig → TokenEfficiencyRound → Sums → Sums
  unfolding add_totals compare_round valid_tokens
  add_round config r s =
      let king = valid_tokens r.king_tokens in
      let challenger = valid_tokens r.challenger_tokens in
      compare_round config r king challenger (add_totals king challenger s)

  unfoldable pub add_rounds : TokenEfficiencyConfig → List TokenEfficiencyRound → Sums → Sums
  add_rounds config [] s = s
  add_rounds config (r ∷ rs) s = add_rounds config rs (add_round config r s)

  abbrev pub no_sums : Sums
  no_sums = record {
    king_total = 0;
    challenger_total = 0;
    king_total_complete = true;
    challenger_total_complete = true;
    comparison_rounds = 0;
    king_savings = nought;
    challenger_savings = nought;
  }

  unfoldable pub stats_of : TokenEfficiencyConfig → ℕ → Sums → TokenEfficiencyStats
  stats_of config pool_target s =
      let king_mean = div s.king_savings (of_int pool_target) in
      let challenger_mean = div s.challenger_savings (of_int pool_target) in
      record {
        king_total_tokens = if s.king_total_complete then some s.king_total else none;
        challenger_total_tokens =
            if s.challenger_total_complete then some s.challenger_total else none;
        token_comparison_rounds = s.comparison_rounds;
        king_savings_mean = king_mean;
        challenger_savings_mean = challenger_mean;
        king_boost = mul king_mean config.bonus_multiplier;
        challenger_boost = mul challenger_mean config.bonus_multiplier;
      }

  -- `none` is the `ValueError` for a pool target that is not positive.
  unfoldable pub calculate_token_efficiency :
      List TokenEfficiencyRound → ℕ → TokenEfficiencyConfig → Option TokenEfficiencyStats
  unfolding stats_of
  calculate_token_efficiency rounds pool_target config =
      if eqb pool_target 0
      then none
      else some (stats_of config pool_target (add_rounds config rounds no_sums))
