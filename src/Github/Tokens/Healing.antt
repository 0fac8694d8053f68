-- ===== src/Github/Tokens/Healing.antt =====
-- A wait of `get_token` ends in a token.
use ninja_validator.Base.{
  ℕ, zero, suc, ◌+◌, ◌%◌, ◌<◌, ◌≤◌, ◌≡◌, ◌∙◌, ap, sym, refl, String, true, false, Option, none,
  some, List, [], ◌∷◌, leb, nat_key, string_key, ◌==◌, length, arith, ltb, eqb, subst,
  if◌then◌else◌,
}
use native.Mathlib.Decide.{ℕ_discrete}
use ninja_validator.Base.Dict.{Dict, lookup, insert, lookup-insert_ne}
use ninja_validator.Github.Tokens.{
  GitHubTokenRotator, is_ready, earliest, scan, token, wait, get_token_turn, drop_key, cool,
  index_of, mark_rate_limited, rate_limit_cooldown, unauthorized_cooldown, mark_unauthorized,
  rotator_of,
}
use ninja_validator.Github.Tokens.Waiting.{
  earliest-lookup, scan-none_keeps, wait_of, get_token_turn-wait_cooling,
}

-- A table of cooldowns of n tokens: each of its indices is below n and occurs once.
unfoldable pub AreCooldowns : ℕ → Dict ℕ ℕ → Type 0
AreCooldowns n [] = Unit
AreCooldowns n ((k, t) ∷ d) = (k < n) × (lookup k d ≡ none) × AreCooldowns n d

-- An earliest cooldown is that of a token.
earliest-reached :
    (n u : ℕ) (d : Dict ℕ ℕ)
    → AreCooldowns n d
    → earliest d ≡ some u
    → (i : ℕ) × (i < n) × (lookup i d ≡ some u)
unfolding earliest AreCooldowns
earliest-reached n u [] fit e = absurd (ground arith)
earliest-reached n u ((k, t) ∷ d) (below, fresh, fit) e =
    let Goal = (i : ℕ) × (i < n) × (lookup i ((k, t) ∷ d) ≡ some u) in
    let later : (m : Option ℕ) → earliest d ≡ m → Goal = λ m.
      elim m as (λ o. earliest d ≡ o → Goal) [
        | none ↦ λ e'. (k, below, ground arith)
        | some w ↦ λ e'.
            let (i, i_below, i_at) = earliest-reached n w d fit e' in
            elim (leb t w) as (λ b. leb t w ≡ b → Goal) [
              | true ↦ λ h. (k, below, ground arith)
              | false ↦ λ h. (i, i_below, ground arith)
            ]
              refl
      ] in
    later (earliest d) refl

lookup-drop_key-none : (i k : ℕ) (d : Dict ℕ ℕ) → lookup k d ≡ none → lookup k (drop_key i d) ≡ none
unfolding drop_key
lookup-drop_key-none i k [] e = ground arith
lookup-drop_key-none i k ((j, t) ∷ d) e = ground (arith, lookup-drop_key-none i k d)

drop_key-AreCooldowns : (n i : ℕ) (d : Dict ℕ ℕ) → AreCooldowns n d → AreCooldowns n (drop_key i d)
unfolding drop_key AreCooldowns
drop_key-AreCooldowns n i [] fit = fit
drop_key-AreCooldowns n i ((j, t) ∷ d) (below, fresh, fit) =
    elim (j == i) as (λ b. AreCooldowns n (if b then d else (j, t) ∷ drop_key i d)) [
      | true ↦ fit
      | false ↦ (below, lookup-drop_key-none i j d fresh, drop_key-AreCooldowns n i d fit)
    ]

insert-AreCooldowns :
    (n i t : ℕ) (d : Dict ℕ ℕ) → i < n → AreCooldowns n d → AreCooldowns n (insert i t d)
unfolding AreCooldowns
insert-AreCooldowns n i t [] lt fit = (lt, refl, fit)
insert-AreCooldowns n i t ((j, s) ∷ d) lt (below, fresh, fit) =
    elim (ℕ_discrete i j)
      as (λ c. AreCooldowns n (elim c [ yes _ ↦ (j, t) ∷ d | no _ ↦ (j, s) ∷ insert i t d ])) [
        | yes _ ↦ (below, fresh, fit)
        | no ne ↦ (
          below,
          lookup-insert_ne i j t d (λ e. ne (sym e)) ∙ fresh,
          insert-AreCooldowns n i t d lt fit,
        )
      ]

-- The tokens are cooled by their own indices, each at most once.
abbrev pub IsRotator : GitHubTokenRotator → Type 0
IsRotator r = AreCooldowns (length r.tokens) r.cooldowns

scan-AreCooldowns :
    (tries now n : ℕ) (r : GitHubTokenRotator)
    → AreCooldowns n r.cooldowns
    → AreCooldowns n (scan tries now r).1.cooldowns
unfolding scan
scan-AreCooldowns zero now n r fit = fit
scan-AreCooldowns (suc tries) now n r fit =
    let idx = r.index % length r.tokens in
    let next = record r { index = r.index + 1 } in
    elim (is_ready now (lookup idx r.cooldowns))
      as (λ b.
        AreCooldowns n
          (if b
            then (some idx, record next { cooldowns = drop_key idx r.cooldowns })
            else scan tries now next).1.cooldowns) [
              | true ↦ drop_key-AreCooldowns n idx r.cooldowns fit
              | false ↦ scan-AreCooldowns tries now n next fit
            ]

index_of-in_range :
    (t : String) (xs : List String)
    → elim (index_of t xs) [ none ↦ true | some i ↦ ltb i (length xs) ] ≡ true
unfolding index_of
index_of-in_range t [] = ground arith
index_of-in_range t (x ∷ xs) = ground (arith, index_of-in_range t xs)

-- A new rotator has no cooldowns.
pub rotator_of-IsRotator :
    (tokens : List String) (r : GitHubTokenRotator) → rotator_of tokens ≡ some r → IsRotator r
unfolding AreCooldowns
rotator_of-IsRotator [] r e = absurd (ground arith)
rotator_of-IsRotator (t ∷ ts) r e =
    let same : r ≡ record { tokens = t ∷ ts; index = 0; cooldowns = [] } = ground arith in
    subst IsRotator (sym same) tt

cool-IsRotator :
    (now : ℕ) (t : String) (seconds : ℕ) (r : GitHubTokenRotator)
    → IsRotator r
    → IsRotator (cool now t seconds r)
unfolding cool AreCooldowns
cool-IsRotator now t seconds r fit =
    elim (index_of t r.tokens)
        as (λ o.
          index_of t r.tokens ≡ o
          → IsRotator (elim o [
            | none ↦ r
            | some idx ↦ record r { cooldowns = insert idx (now + seconds) r.cooldowns }
          ])) [
            | none ↦ λ e. fit
            | some idx ↦ λ e.
                insert-AreCooldowns (length r.tokens) idx (now + seconds) r.cooldowns
                  (ground (arith, index_of-in_range t r.tokens)) fit
          ]
      refl

scan-tokens : (tries now : ℕ) (r : GitHubTokenRotator) → (scan tries now r).1.tokens ≡ r.tokens
unfolding scan
scan-tokens zero now r = ground arith
scan-tokens (suc tries) now r =
    ground (arith, scan-tokens tries now (record r { index = r.index + 1 }))

earliest-not_none :
    (now : ℕ) (d : Dict ℕ ℕ)
    → earliest d ≡ none
    → (at : Option ℕ) → lookup 0 d ≡ at
    → is_ready now at ≡ false
    → ⊥
earliest-not_none now d e none e' cooling = ground arith
earliest-not_none now d e (some t) e' cooling = ground (arith, earliest-lookup 0 t d e')

-- When the wait for the earliest cooldown is over, some token is ready.
ready_after_wait :
    (now n : ℕ) (d : Dict ℕ ℕ)
    → AreCooldowns n d
    → is_ready now (lookup 0 d) ≡ false
    → (i : ℕ) × (i < n) × (is_ready (now + wait_of now d) (lookup i d) ≡ true)
ready_after_wait now n d fit cooling =
    let Goal = (i : ℕ) × (i < n) × (is_ready (now + wait_of now d) (lookup i d) ≡ true) in
    let found : (m : Option ℕ) → earliest d ≡ m → Goal = λ m.
      elim m as (λ o. earliest d ≡ o → Goal) [
        | none ↦ λ e. absurd (earliest-not_none now d e (lookup 0 d) refl cooling)
        | some u ↦ λ e.
            let (i, below, at) = earliest-reached n u d fit e in (i, below, ground (arith, at, e))
      ] in
    found (earliest d) refl

-- Each index cools down at most once and belongs to a token, and there is a token. Then a turn of `get_token`
-- that waits is followed, once the wait is over, by a turn that finds a token.
pub get_token_turn-heals :
    (now seconds after : ℕ) (r r' : GitHubTokenRotator)
    → IsRotator r
    → 0 < length r.tokens
    → get_token_turn now r ≡ (wait seconds, r')
    → now + seconds ≤ after
    → (t : String) × ((get_token_turn after r').0 ≡ token t)
unfolding get_token_turn
get_token_turn-heals now seconds after r r' fit some_token e over =
    let n = length r.tokens in
    let none_found : scan n now r ≡ (none, (scan n now r).1) = ground arith in
    let same = scan-none_keeps n now r (scan n now r).1 none_found in
    let waits : wait_of now r.cooldowns ≡ seconds = ground (arith, same) in
    let (i, below, ready) =
      ready_after_wait now n r.cooldowns fit
        (get_token_turn-wait_cooling now seconds 0 r r' e some_token) in
    let kept : r'.tokens ≡ r.tokens = ground (arith, scan-tokens n now r) in
    let cooled : r'.cooldowns ≡ r.cooldowns = ground (arith, same) in
    let next = get_token_turn after r' in
    elim next.0 as (λ turn. next.0 ≡ turn → (t : String) × (turn ≡ token t)) [
      | token t ↦ λ h. (t, refl)
      | wait s ↦ λ h.
          let below' : i < length r'.tokens = subst (λ ts. i < length ts) (sym kept) below in
          let cooling =
            get_token_turn-wait_cooling after s i r' next.1 (λ k. (h k, next.1)) below' in
          absurd (ground (arith, cooling, cooled, ready, waits))
    ]
      refl

pub mark_rate_limited-IsRotator :
    (now : ℕ) (t : String) (seconds : Option ℕ) (r : GitHubTokenRotator)
    → IsRotator r
    → IsRotator (mark_rate_limited now t seconds r)
unfolding mark_rate_limited
mark_rate_limited-IsRotator now t none r = cool-IsRotator now t rate_limit_cooldown r
mark_rate_limited-IsRotator now t (some seconds) r =
    cool-IsRotator now t (if eqb seconds 0 then rate_limit_cooldown else seconds) r

pub mark_unauthorized-IsRotator :
    (now : ℕ) (t : String) (r : GitHubTokenRotator)
    → IsRotator r
    → IsRotator (mark_unauthorized now t r)
unfolding mark_unauthorized
mark_unauthorized-IsRotator now t r = cool-IsRotator now t unauthorized_cooldown r

pub get_token_turn-IsRotator :
    (now : ℕ) (r : GitHubTokenRotator) → IsRotator r → IsRotator (get_token_turn now r).1
unfolding get_token_turn
get_token_turn-IsRotator now r fit =
    let n = length r.tokens in
    let same : (get_token_turn now r).1 ≡ (scan n now r).1 = ground arith in
    subst IsRotator (sym same) (
      subst (λ m. AreCooldowns m (scan n now r).1.cooldowns) (ap length (sym (scan-tokens n now r)))
        (scan-AreCooldowns n now n r fit))
