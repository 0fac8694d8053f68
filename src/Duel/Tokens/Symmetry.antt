-- ===== src/Duel/Tokens/Symmetry.antt =====
-- The bonus treats the two sides alike.
use ninja_validator.Base.{◌≡◌, refl, Option, none, some, List, [], ◌∷◌, arith, ℕ}
use ninja_validator.Floats.{Floats}
use ninja_validator.Duel.Tokens.{
  TokenEfficiencyConfig, TokenEfficiencyRound, TokenEfficiencyStats, Sums, add_round, add_rounds,
  no_sums, calculate_token_efficiency,
}

module _ (fl : Floats) where
  -- The same round seen from the other side.
  abbrev pub swap_round : TokenEfficiencyRound fl → TokenEfficiencyRound fl
  swap_round r = record {
    king_score = r.challenger_score;
    challenger_score = r.king_score;
    king_tokens = r.challenger_tokens;
    challenger_tokens = r.king_tokens;
    judgement_valid = r.judgement_valid;
  }

  abbrev pub swap_rounds : List (TokenEfficiencyRound fl) → List (TokenEfficiencyRound fl)
  swap_rounds [] = []
  swap_rounds (r ∷ rs) = swap_round r ∷ swap_rounds rs

  abbrev swap_sums : Sums fl → Sums fl
  swap_sums s = record {
    king_total = s.challenger_total;
    challenger_total = s.king_total;
    king_total_complete = s.challenger_total_complete;
    challenger_total_complete = s.king_total_complete;
    comparison_rounds = s.comparison_rounds;
    king_savings = s.challenger_savings;
    challenger_savings = s.king_savings;
  }

  abbrev pub swap_stats : TokenEfficiencyStats fl → TokenEfficiencyStats fl
  swap_stats s = record {
    king_total_tokens = s.challenger_total_tokens;
    challenger_total_tokens = s.king_total_tokens;
    token_comparison_rounds = s.token_comparison_rounds;
    king_savings_mean = s.challenger_savings_mean;
    challenger_savings_mean = s.king_savings_mean;
    king_boost = s.challenger_boost;
    challenger_boost = s.king_boost;
  }

  abbrev pub swap_result : Option (TokenEfficiencyStats fl) → Option (TokenEfficiencyStats fl)
  swap_result none = none
  swap_result (some s) = some (swap_stats s)

  add_round-swap :
      (c : TokenEfficiencyConfig fl) (r : TokenEfficiencyRound fl) (s : Sums fl)
      → add_round fl c (swap_round r) (swap_sums s) ≡ swap_sums (add_round fl c r s)
  unfolding add_round
  add_round-swap c r s = ground arith

  add_rounds-swap :
      (c : TokenEfficiencyConfig fl) (rs : List (TokenEfficiencyRound fl)) (s : Sums fl)
      → add_rounds fl c (swap_rounds rs) (swap_sums s) ≡ swap_sums (add_rounds fl c rs s)
  unfolding add_rounds
  add_rounds-swap c [] s = refl
  add_rounds-swap c (r ∷ rs) s =
      ground (arith, add_round-swap c r s, add_rounds-swap c rs (add_round fl c r s))

  -- Exchanging king and challenger in every round exchanges them in the result: totals, savings and
  -- boosts. No side has an advantage from its role.
  pub calculate_symmetric :
      (rounds : List (TokenEfficiencyRound fl)) (target : ℕ) (c : TokenEfficiencyConfig fl)
      → calculate_token_efficiency fl (swap_rounds rounds) target c
        ≡ swap_result (calculate_token_efficiency fl rounds target c)
  unfolding calculate_token_efficiency
  calculate_symmetric rounds target c = ground (arith, add_rounds-swap c rounds (no_sums fl))
