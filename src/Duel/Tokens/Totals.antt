-- ===== src/Duel/Tokens/Totals.antt =====
-- The token totals of a pool: exact when every round's usage is known, and never a partial sum.
use ninja_validator.Base.{
  ℕ, ◌+◌, ◌<◌, ◌≡◌, Bool, Option, none, some, List, [], ◌∷◌, arith, is_some, if◌then◌else◌,
  count_if, ◌&&◌,
}
use ninja_validator.Floats.{Floats}
use ninja_validator.Duel.Tokens.{
  TokenCount, valid_tokens, TokenEfficiencyConfig, TokenEfficiencyRound, TokenEfficiencyStats, Sums,
  add_round, add_rounds, no_sums, stats_of, calculate_token_efficiency,
}

-- `n` more, if the sum is known.
abbrev plus : ℕ → Option ℕ → Option ℕ
plus n none = none
plus n (some k) = some (n + k)

-- The sum of the counts, if every one is usable.
abbrev pub known_total : List TokenCount → Option ℕ
known_total [] = some 0
known_total (c ∷ cs) = elim (valid_tokens c) [ none ↦ none | some n ↦ plus n (known_total cs) ]

module _ (fl : Floats) where
  abbrev Round : Type 0
  Round = TokenEfficiencyRound fl

  abbrev pub king_counts : List Round → List TokenCount
  king_counts [] = []
  king_counts (r ∷ rs) = r.king_tokens ∷ king_counts rs

  abbrev pub challenger_counts : List Round → List TokenCount
  challenger_counts [] = []
  challenger_counts (r ∷ rs) = r.challenger_tokens ∷ challenger_counts rs

  -- Both sides' usage is known.
  abbrev pub is_comparable : Round → Bool
  is_comparable r =
      is_some (valid_tokens r.king_tokens) && is_some (valid_tokens r.challenger_tokens)

  -- The running total as an option.
  abbrev king_so_far : Sums fl → Option ℕ
  king_so_far s = if s.king_total_complete then some s.king_total else none

  abbrev challenger_so_far : Sums fl → Option ℕ
  challenger_so_far s = if s.challenger_total_complete then some s.challenger_total else none

  -- Two sums, if both are known.
  abbrev both : Option ℕ → Option ℕ → Option ℕ
  both none _ = none
  both (some n) k = plus n k

  both_assoc : (a b c : Option ℕ) → both (both a b) c ≡ both a (both b c)
  both_assoc a b c = ground arith

  add_round-totals :
      (c : TokenEfficiencyConfig fl) (r : Round) (s : Sums fl)
      → (king_so_far (add_round fl c r s) ≡ both (king_so_far s) (valid_tokens r.king_tokens))
        × (challenger_so_far (add_round fl c r s)
            ≡ both (challenger_so_far s) (valid_tokens r.challenger_tokens))
        × ((add_round fl c r s).comparison_rounds
            ≡ s.comparison_rounds + (if is_comparable r then 1 else 0))
  unfolding add_round
  add_round-totals c r s = (ground arith, ground arith, ground arith)

  add_rounds-totals :
      (c : TokenEfficiencyConfig fl) (rs : List Round) (s : Sums fl)
      → (king_so_far (add_rounds fl c rs s) ≡ both (king_so_far s) (known_total (king_counts rs)))
        × (challenger_so_far (add_rounds fl c rs s)
            ≡ both (challenger_so_far s) (known_total (challenger_counts rs)))
        × ((add_rounds fl c rs s).comparison_rounds
            ≡ s.comparison_rounds + count_if is_comparable rs)
  unfolding add_rounds
  add_rounds-totals c [] s = (ground arith, ground arith, omega arith)
  add_rounds-totals c (r ∷ rs) s =
      let (k, ch, n) = add_rounds-totals c rs (add_round fl c r s) in
      let (k', ch', n') = add_round-totals c r s in
      (ground (arith, k, k'), ground (arith, ch, ch'), ground (arith, n, n'))

  -- A positive target is never refused. A side's reported total is the sum of its counts over all
  -- rounds when every one of them is usable, and missing when one is not; and the compared rounds
  -- are those in which both counts are usable.
  pub totals_exact :
      (rounds : List Round) (target : ℕ) (c : TokenEfficiencyConfig fl)
      → 0 < target
      → (s : TokenEfficiencyStats fl) × (calculate_token_efficiency fl rounds target c ≡ some s)
        × (s.king_total_tokens ≡ known_total (king_counts rounds))
        × (s.challenger_total_tokens ≡ known_total (challenger_counts rounds))
        × (s.token_comparison_rounds ≡ count_if is_comparable rounds)
  unfolding calculate_token_efficiency
  totals_exact rounds target c h =
      let (k, ch, n) = add_rounds-totals c rounds (no_sums fl) in
      (
        stats_of fl c target (add_rounds fl c rounds (no_sums fl)),
        ground arith,
        ground (arith, k),
        ground (arith, ch),
        ground (arith, n),
      )
