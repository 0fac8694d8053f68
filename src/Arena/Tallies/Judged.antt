-- ===== src/Arena/Tallies/Judged.antt =====
-- A tally counts each judgement of its pool once.
use ninja_validator.Base.{
  String-discrete, ℕ, ◌+◌, ◌<◌, ◌≡◌, refl, String, true, false, Option, some, List, [], ◌∷◌, arith,
  string_key, length, count_if, inl, inr, Option-cases, ◌==◌, map,
}
use ninja_validator.Floats.{Floats}
use ninja_validator.Duel.Snapshot.{PoolType, Tally, judged}
use ninja_validator.Duel.Tokens.{TokenEfficiencyConfig, TokenEfficiencyStats}
use ninja_validator.Duel.Tokens.Totals.{totals_exact}
use ninja_validator.Arena.Tables.{Arena, Judgement}
use ninja_validator.Arena.Tallies.{
  is_winner, is_tie, pool_judgements, tally_of, tally, efficiency_round, pool_token_totals,
}

names_differ : ◌==◌ {A = String} "challenger" "king" ≡ false
unfolding String-discrete
names_differ = refl

module _ (fl : Floats) where
  one_winner :
      (j : Judgement fl) → is_winner fl "challenger" j ≡ true → is_winner fl "king" j ≡ false
  one_winner j h = elim (Option-cases j.llm_winner) [
    | inl e ↦ absurd (ground (arith, e))
    | inr (w, e) ↦ ground (arith, e, names_differ)
  ]

  outcomes_partition :
      (js : List (Judgement fl))
      → count_if (is_winner fl "challenger") js
          + count_if (is_winner fl "king") js
          + count_if (is_tie fl) js
        ≡ length js
  outcomes_partition [] = omega arith
  outcomes_partition (j ∷ js) = ground (arith, one_winner j, outcomes_partition js)

  judged-tally_of :
      (rows : List (Judgement fl)) (stats : TokenEfficiencyStats fl) (totals : Option ℕ × Option ℕ)
      → judged fl (tally_of fl rows stats totals) ≡ length rows
  unfolding tally_of
  judged-tally_of rows stats (k, c) = outcomes_partition rows

  -- With a positive target there always is a tally, and its judged rounds are the judgements of the
  -- pool, each counted once as a win, a loss or a tie.
  pub judged-tally :
      (db : Arena fl) (king challenger : String) (pool : PoolType) (target : ℕ)
      (config : TokenEfficiencyConfig fl)
      → 0 < target
      → (t : Tally fl) × (tally fl db king challenger pool target config ≡ some t)
        × (judged fl t ≡ length (pool_judgements fl db king challenger pool db.judgements))
  unfolding tally
  judged-tally db king challenger pool target config h =
      let rows = pool_judgements fl db king challenger pool db.judgements in
      let totals = pool_token_totals fl db king challenger pool (length rows) in
      let (stats, e, _, _, _) =
        totals_exact fl (map (efficiency_round fl db king challenger) rows) target config h in
      (tally_of fl rows stats totals, ground (arith, e), judged-tally_of rows stats totals)
