-- ===== src/Duel/Predicates.antt =====
-- tau/duel/predicates.py. `max(0, remaining)` is the number of rounds itself, which is not negative.
use ninja_validator.Base.{ℕ, ◌+◌, max, Bool, not, ◌&&◌, ltb}
use ninja_validator.Floats.{Floats}

unfoldable pub challenger_wins : ℕ → ℕ → ℕ → Bool
challenger_wins wins losses margin = ltb (losses + margin) wins

unfoldable pub challenger_wins_by_mean_score : (fl : Floats) → fl.Float → ℕ → fl.Float → Bool
challenger_wins_by_mean_score fl delta rounds margin = ltb 0 rounds && fl.le margin delta

unfoldable pub challenger_is_unbeatable : ℕ → ℕ → ℕ → ℕ → Bool
unfolding challenger_wins
challenger_is_unbeatable wins losses remaining_rounds margin =
    challenger_wins wins (losses + max 0 remaining_rounds) margin

unfoldable pub challenger_cannot_catch : ℕ → ℕ → ℕ → ℕ → Bool
unfolding challenger_wins
challenger_cannot_catch wins losses remaining_rounds margin =
    not (challenger_wins (wins + max 0 remaining_rounds) losses margin)
