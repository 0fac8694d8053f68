-- ===== src/Github/Tokens/Waiting.antt =====
-- The turns of `get_token` that find no token.
use ninja_validator.Base.{
  ℕ, zero, suc, ◌+◌, ◌-◌, ◌%◌, ◌<◌, ◌≡◌, ◌∙◌, ap, sym, refl, true, false, Option, none, some, [],
  ◌∷◌, leb, nat_key, length, arith,
}
use native.Mathlib.Nat.{mod-lt, mod-add-mod, add-mod-mod, add-mod_right, mod-eq_of_lt}
use ninja_validator.Base.Dict.{Dict, lookup}
use ninja_validator.Github.Tokens.{
  GitHubTokenRotator, is_ready, earliest, scan, wait, get_token_turn,
}

-- When the scan finds nothing, every index that it tried is cooling down.
pub scan-none_ready :
    (tries now j : ℕ) (r r' : GitHubTokenRotator)
    → scan tries now r ≡ (none, r')
    → j < tries
    → is_ready now (lookup ((r.index + j) % length r.tokens) r.cooldowns) ≡ false
unfolding scan
scan-none_ready zero now j r r' e lt = absurd (ground arith)
scan-none_ready (suc tries) now zero r r' e lt = ground arith
scan-none_ready (suc tries) now (suc j) r r' e lt =
    ground (arith, scan-none_ready tries now j (record r { index = r.index + 1 }) r')

-- From any start, some number of steps below n reaches each residue.
residue-reached : (n start i : ℕ) → i < n → (j : ℕ) × (j < n) × ((start + j) % n ≡ i)
residue-reached n start i lt =
    let s = start % n in
    let s_lt : s < n = mod-lt start (omega arith) in
    let j = (n - s + i) % n in
    let around : s + (n - s + i) ≡ i + n = omega arith in
    (
      j,
      mod-lt (n - s + i) (omega arith),
      sym (mod-add-mod start n j)
          ∙ add-mod-mod s (n - s + i) n
          ∙ ap (λ (x : ℕ). x % n) around
          ∙ add-mod_right i n
          ∙ mod-eq_of_lt lt,
    )

-- A scan that finds nothing leaves the cooldowns as they are.
pub scan-none_keeps :
    (tries now : ℕ) (r r' : GitHubTokenRotator)
    → scan tries now r ≡ (none, r')
    → r'.cooldowns ≡ r.cooldowns
unfolding scan
scan-none_keeps zero now r r' e = ground arith
scan-none_keeps (suc tries) now r r' e =
    ground (arith, scan-none_keeps tries now (record r { index = r.index + 1 }) r')

-- `earliest` is no later than any cooldown.
pub earliest-lookup :
    (i t : ℕ) (d : Dict ℕ ℕ)
    → lookup i d ≡ some t
    → elim (earliest d) [ none ↦ false | some u ↦ leb u t ] ≡ true
unfolding earliest
earliest-lookup i t [] e = absurd (ground arith)
earliest-lookup i t ((k, s) ∷ d) e = ground (arith, earliest-lookup i t d)

-- The wait until the earliest cooldown has passed.
abbrev pub wait_of : ℕ → Dict ℕ ℕ → ℕ
wait_of now d = elim (earliest d) [ none ↦ 0 | some at ↦ at - now ]

-- A token that cools down does so until then.
still_cooling :
    (now k i : ℕ) (d : Dict ℕ ℕ) (ready_at : Option ℕ)
    → lookup i d ≡ ready_at
    → is_ready now ready_at ≡ false
    → k < wait_of now d
    → is_ready (now + k) ready_at ≡ false
still_cooling now k i d none e cooling early = absurd (ground arith)
still_cooling now k i d (some t) e cooling early = ground (arith, earliest-lookup i t d e)

-- When a turn of `get_token` finds no token, every token is cooling down.
pub get_token_turn-wait_cooling :
    (now seconds i : ℕ) (r r' : GitHubTokenRotator)
    → get_token_turn now r ≡ (wait seconds, r')
    → i < length r.tokens
    → is_ready now (lookup i r.cooldowns) ≡ false
unfolding get_token_turn
get_token_turn-wait_cooling now seconds i r r' e lt =
    let n = length r.tokens in
    let (j, below, reached) = residue-reached n r.index i lt in
    let none_found : scan n now r ≡ (none, (scan n now r).1) = ground arith in
    ground (arith, reached, scan-none_ready n now j r (scan n now r).1 none_found below)

-- A turn of `get_token` that waits for some time leaves the cooldowns as they are, and no token
-- becomes ready before that time has passed.
pub get_token_turn-wait :
    (now seconds k i : ℕ) (r r' : GitHubTokenRotator)
    → get_token_turn now r ≡ (wait seconds, r')
    → i < length r.tokens
    → k < seconds
    → (r'.cooldowns ≡ r.cooldowns) × (is_ready (now + k) (lookup i r.cooldowns) ≡ false)
unfolding get_token_turn
get_token_turn-wait now seconds k i r r' e lt early =
    let n = length r.tokens in
    let none_found : scan n now r ≡ (none, (scan n now r).1) = ground arith in
    let same = scan-none_keeps n now r (scan n now r).1 none_found in
    let cooling = get_token_turn-wait_cooling now seconds i r r' e lt in
    let cools = r.cooldowns in
    let waits : wait_of now cools ≡ seconds = ground (arith, same) in
    (
      ground (arith, same),
      still_cooling now k i cools (lookup i cools) refl cooling (omega (arith, waits)),
    )
