-- ===== src/Duel/Decide/RoundWins.antt =====
-- Early stopping under round-win scoring.
use ninja_validator.Base.{ℕ, ◌+◌, ◌≤◌, ◌≡◌, ◌≢◌, refl, ◌↔◌, Bool, true, false, arith}
use ninja_validator.Floats.{Floats}
use ninja_validator.Duel.Snapshot.{ActiveChallenge, PoolType, pool_one, pool_two, remaining}
use ninja_validator.Duel.Actions.{
  Action, nothing, open_challenge, advance_pool, promote, close_challenge, duel_in_progress,
  king_defended,
}
use ninja_validator.Duel.Predicates.{
  challenger_wins, challenger_is_unbeatable, challenger_cannot_catch,
}
use ninja_validator.Duel.Decide.{decide_with_round_wins_scoring_method}

of_not_true : (b : Bool) → ¬ (b ≡ true) → b ≡ false
of_not_true true h = absurd (h refl)
of_not_true false h = refl

-- However the `left` rounds end, the challenger's final record is a win.
abbrev pub WinsAlways : (wins losses left margin : ℕ) → Type 0
WinsAlways wins losses left margin =
    (w l t : ℕ) → w + l + t ≡ left → challenger_wins (wins + w) (losses + l) margin ≡ true

-- However the `left` rounds end, the challenger's final record is no win.
abbrev pub LosesAlways : (wins losses left margin : ℕ) → Type 0
LosesAlways wins losses left margin =
    (w l t : ℕ) → w + l + t ≡ left → challenger_wins (wins + w) (losses + l) margin ≡ false

unbeatable_iff :
    (wins losses left margin : ℕ)
    → (challenger_is_unbeatable wins losses left margin ≡ true) ↔ WinsAlways wins losses left margin
unfolding challenger_wins challenger_is_unbeatable
unbeatable_iff wins losses left margin =
    (λ h w l t e. ground arith, λ h. ground (arith, h 0 left 0 (omega arith)))

cannot_catch_iff :
    (wins losses left margin : ℕ)
    → (challenger_cannot_catch wins losses left margin ≡ true) ↔ LosesAlways wins losses left margin
unfolding challenger_wins challenger_cannot_catch
cannot_catch_iff wins losses left margin =
    (λ h w l t e. ground arith, λ h. ground (arith, h left 0 0 (omega arith)))

module _ (fl : Floats) where
  -- What a pool that the challenger has won leads to.
  abbrev pub cleared : PoolType → ActiveChallenge fl → Action fl
  cleared pool_one active = advance_pool active
  cleared pool_two active = promote active

  abbrev Wins : ActiveChallenge fl → ℕ → Type 0
  Wins a m = WinsAlways a.tally.wins a.tally.losses (remaining fl a) m

  abbrev Loses : ActiveChallenge fl → ℕ → Type 0
  Loses a m = LosesAlways a.tally.wins a.tally.losses (remaining fl a) m

  -- The two tests decide among the three answers.
  tests_iff :
      (a : ActiveChallenge fl) (m : ℕ)
      → let action = decide_with_round_wins_scoring_method fl a m in
        let up = challenger_is_unbeatable a.tally.wins a.tally.losses (remaining fl a) m in
        let down = challenger_cannot_catch a.tally.wins a.tally.losses (remaining fl a) m in
        ((action ≡ cleared a.pool a) ↔ (up ≡ true))
        × ((action ≡ close_challenge a king_defended) ↔ (down ≡ true))
        × ((action ≡ nothing duel_in_progress) ↔ ((up ≡ false) × (down ≡ false)))
  unfolding decide_with_round_wins_scoring_method challenger_is_unbeatable challenger_cannot_catch
      challenger_wins
  tests_iff a m = (
    (λ h. ground arith, λ h. ground arith),
    (λ h. ground arith, λ h. ground arith),
    (λ h. (ground arith, ground arith), λ h. ground arith),
  )

  -- Early stopping is exact. A pool is cleared (pool one advances, pool two crowns) just when the
  -- challenger wins however the rounds that are left end; the challenge is closed for the king just
  -- when the challenger wins in no such case; and the duel goes on just when neither holds.
  pub early_stop_exact :
      (a : ActiveChallenge fl) (m : ℕ)
      → let action = decide_with_round_wins_scoring_method fl a m in
        ((action ≡ cleared a.pool a) ↔ Wins a m)
        × ((action ≡ close_challenge a king_defended) ↔ Loses a m)
        × ((action ≡ nothing duel_in_progress) ↔ ((¬ Wins a m) × (¬ Loses a m)))
  early_stop_exact a m =
      let (up, down, going) = tests_iff a m in
      let win = unbeatable_iff a.tally.wins a.tally.losses (remaining fl a) m in
      let lose = cannot_catch_iff a.tally.wins a.tally.losses (remaining fl a) m in
      (
        (λ h. win.0 (up.0 h), λ h. up.1 (win.1 h)),
        (λ h. lose.0 (down.0 h), λ h. down.1 (lose.1 h)),
        (
          λ h. let (u, d) = going.0 h in (λ w. cc (win.1 w), λ w. cc (lose.1 w)),
          λ h. going.1 (of_not_true _ (λ w. h.0 (win.0 w)), of_not_true _ (λ w. h.1 (lose.0 w))),
        ),
      )

  -- `a` after w, l and t more rounds were judged for the challenger, for the king, and as ties.
  abbrev pub judge_rounds : ActiveChallenge fl → (w l t : ℕ) → ActiveChallenge fl
  judge_rounds a w l t =
      let tally = a.tally in
      record a {
        tally = record tally {
          wins = tally.wins + w;
          losses = tally.losses + l;
          ties = tally.ties + t;
        };
      }

  -- The same action for a later tally of the challenge.
  abbrev pub carry : ActiveChallenge fl → Action fl → Action fl
  carry b (nothing r) = nothing r
  carry b (open_challenge king challenger) = open_challenge king challenger
  carry b (advance_pool a) = advance_pool b
  carry b (promote a) = promote b
  carry b (close_challenge a r) = close_challenge b r

  -- A verdict reached before the pool is full is the one that every later tally of it gives, while
  -- no more rounds are judged than were left.
  pub verdict_stable :
      (a : ActiveChallenge fl) (m w l t : ℕ)
      → w + l + t ≤ remaining fl a
      → decide_with_round_wins_scoring_method fl a m ≢ nothing duel_in_progress
      → decide_with_round_wins_scoring_method fl (judge_rounds a w l t) m
        ≡ carry (judge_rounds a w l t) (decide_with_round_wins_scoring_method fl a m)
  unfolding decide_with_round_wins_scoring_method challenger_is_unbeatable challenger_cannot_catch
      challenger_wins
  verdict_stable a m w l t h e = ground arith
