-- ===== src/Tests/Tokens.antt =====
-- Two tokens that both cool down at instant 10, one until 60 and the other until 130.
use ninja_validator.Base.{String-discrete, ◌≡◌, String, refl, some, [], ◌∷◌, arith, subst, nat_key}
use native.Mathlib.Decide.{ℕ_discrete}
use ninja_validator.Github.Tokens.{
  GitHubTokenRotator, token, wait, get_token_turn, mark_rate_limited, mark_unauthorized,
}
use ninja_validator.Github.Tokens.Healing.{
  IsRotator, get_token_turn-heals, rotator_of-IsRotator, mark_rate_limited-IsRotator,
  mark_unauthorized-IsRotator,
}

abbrev fresh : GitHubTokenRotator
fresh = record { tokens = "a" ∷ "b" ∷ []; index = 0; cooldowns = [] }

abbrev cooling : GitHubTokenRotator
cooling = record { tokens = "a" ∷ "b" ∷ []; index = 0; cooldowns = (0, 60) ∷ (1, 130) ∷ [] }

abbrev waited : GitHubTokenRotator
waited = record { tokens = "a" ∷ "b" ∷ []; index = 2; cooldowns = (0, 60) ∷ (1, 130) ∷ [] }

turns_in_order : get_token_turn 10 fresh ≡ (token "a", record fresh { index = 1 })
unfolding get_token_turn
turns_in_order = refl

marks_cool : mark_unauthorized 10 "b" (mark_rate_limited 10 "a" (some 50) fresh) ≡ cooling
unfolding mark_unauthorized mark_rate_limited String-discrete ℕ_discrete
marks_cool = refl

-- A token that is waited for is taken from the cooldowns.
turn_after_wait :
    get_token_turn 60 waited ≡ (token "a", record waited { index = 3; cooldowns = (1, 130) ∷ [] })
unfolding get_token_turn ℕ_discrete
turn_after_wait = refl

both_cooling : get_token_turn 10 cooling ≡ (wait 50, waited)
unfolding get_token_turn ℕ_discrete
both_cooling = refl

cooling-IsRotator : IsRotator cooling
cooling-IsRotator = subst IsRotator marks_cool (
    mark_unauthorized-IsRotator 10 "b" (mark_rate_limited 10 "a" (some 50) fresh) (
      mark_rate_limited-IsRotator 10 "a" (some 50) fresh
        (rotator_of-IsRotator ("a" ∷ "b" ∷ []) fresh refl)))

get_token_turn-heals_example : (t : String) × ((get_token_turn 61 waited).0 ≡ token t)
get_token_turn-heals_example =
    get_token_turn-heals 10 50 61 cooling waited cooling-IsRotator (omega arith) both_cooling
      (omega arith)
