-- ===== src/Github/Tokens.antt =====
-- tau/github/tokens.py: the rotation of tokens. Instants and durations are naturals of one unit, in which
-- the fallback cooldowns are seconds; a method reads the clock once, as `now`.
pub mod Waiting
pub mod Healing
use ninja_validator.Base.{
  ℕ, zero, suc, ◌+◌, ◌-◌, ◌%◌, ◌<◌, ◌≡◌, ◌∙◌, ap, sym, refl, String, Bool, true, false, Option,
  none, some, List, [], ◌∷◌, leb, eqb, ◌==◌, string_key, nat_key, length, get_elem?, arith,
  if◌then◌else◌, min,
}
use ninja_validator.Base.Dict.{Dict, insert, lookup, lookup-insert_self, lookup-insert_ne}

-- `_RATE_LIMIT_COOLDOWN` and `_UNAUTHORIZED_COOLDOWN`
abbrev pub rate_limit_cooldown : ℕ
rate_limit_cooldown = 60

abbrev pub unauthorized_cooldown : ℕ
unauthorized_cooldown = 120

-- `GitHubTokenRotator`
pub record GitHubTokenRotator : Type 0 where
  pub tokens : List String
  pub index : ℕ
  pub cooldowns : Dict ℕ ℕ

-- `__init__`; none is the `ValueError`.
abbrev pub rotator_of : List String → Option GitHubTokenRotator
rotator_of [] = none
rotator_of (t ∷ ts) = some record { tokens = t ∷ ts; index = 0; cooldowns = [] }

-- `ready_at is None or ready_at <= now`
abbrev pub is_ready : ℕ → Option ℕ → Bool
is_ready now none = true
is_ready now (some ready_at) = leb ready_at now

-- `self._cooldowns.pop(idx, None)`
unfoldable pub drop_key : ℕ → Dict ℕ ℕ → Dict ℕ ℕ
drop_key idx [] = []
drop_key idx ((k, t) ∷ d) = let rest = drop_key idx d in if k == idx then d else (k, t) ∷ rest

-- `min(self._cooldowns.values())`; none for no values.
unfoldable pub earliest : Dict ℕ ℕ → Option ℕ
earliest [] = none
earliest ((k, t) ∷ d) = elim (earliest d) [ none ↦ some t | some u ↦ some (min t u) ]

-- The scan of `get_token`, with the tries that are left: the index of a token, or none.
unfoldable pub scan : ℕ → ℕ → GitHubTokenRotator → Option ℕ × GitHubTokenRotator
unfolding drop_key
scan zero now r = (none, r)
scan (suc tries) now r =
    let idx = r.index % length r.tokens in
    let next = record r { index = r.index + 1 } in
    let rest = scan tries now next in
    if is_ready now (lookup idx r.cooldowns)
    then (some idx, record next { cooldowns = drop_key idx r.cooldowns })
    else rest

-- One turn of the loop of `get_token`.
pub data Turn : Type 0 where
  token : String → Turn
  wait : ℕ → Turn

-- An index out of range cannot be scanned; the empty text stands for it.
abbrev pub token_at : ℕ → List String → String
token_at idx tokens = elim (get_elem? tokens idx) [ none ↦ "" | some t ↦ t ]

unfoldable pub get_token_turn : ℕ → GitHubTokenRotator → Turn × GitHubTokenRotator
unfolding scan earliest
get_token_turn now r =
    let (found, r') = scan (length r.tokens) now r in
    elim found [
      | some idx ↦ (token (token_at idx r.tokens), r')
      | none ↦ elim (earliest r'.cooldowns) [
        | none ↦ (wait 0, r')
        | some at ↦ (wait (at - now), r')
      ]
    ]

-- `self._tokens.index(token)`
unfoldable pub index_of : String → List String → Option ℕ
index_of t [] = none
index_of t (x ∷ xs) = elim (x == t) [
  | true ↦ some 0
  | false ↦ elim (index_of t xs) [ none ↦ none | some i ↦ some (suc i) ]
]

-- The cooldown of a token from now on; an unknown token is passed over.
unfoldable pub cool : ℕ → String → ℕ → GitHubTokenRotator → GitHubTokenRotator
unfolding index_of
cool now t seconds r = elim (index_of t r.tokens) [
  | none ↦ r
  | some idx ↦ record r { cooldowns = insert idx (now + seconds) r.cooldowns }
]

-- `mark_rate_limited`; a cooldown of 0 or less is as none.
unfoldable pub mark_rate_limited : ℕ → String → Option ℕ → GitHubTokenRotator → GitHubTokenRotator
unfolding cool
mark_rate_limited now t none r = cool now t rate_limit_cooldown r
mark_rate_limited now t (some seconds) r =
    cool now t (if eqb seconds 0 then rate_limit_cooldown else seconds) r

-- `mark_unauthorized`
unfoldable pub mark_unauthorized : ℕ → String → GitHubTokenRotator → GitHubTokenRotator
unfolding cool
mark_unauthorized now t r = cool now t unauthorized_cooldown r

-- A token that the scan finds is not cooling down.
pub scan-is_ready :
    (tries now idx : ℕ) (r r' : GitHubTokenRotator)
    → scan tries now r ≡ (some idx, r')
    → is_ready now (lookup idx r.cooldowns) ≡ true
unfolding scan
scan-is_ready zero now idx r r' e = absurd (ground arith)
scan-is_ready (suc tries) now idx r r' e =
    ground (arith, scan-is_ready tries now idx (record r { index = r.index + 1 }) r')

-- Cooling a known token gives its index the new cooldown, and leaves that of every other index.
pub lookup-cool :
    (now : ℕ) (t : String) (seconds i idx : ℕ) (r : GitHubTokenRotator)
    → index_of t r.tokens ≡ some idx
    → lookup i (cool now t seconds r).cooldowns
      ≡ (if i == idx then some (now + seconds) else lookup i r.cooldowns)
unfolding cool
lookup-cool now t seconds i idx r e = ground (
  arith,
  e,
  lookup-insert_self idx (now + seconds) r.cooldowns,
  lookup-insert_ne idx i (now + seconds) r.cooldowns,
)
