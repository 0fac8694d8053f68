-- ===== src/Base/Dict.antt =====
-- A Python dict: an association list in insertion order.
use mathlib.Core.Path.{◌≡◌}
use mathlib.Core.Logic.{◌≢◌}
use mathlib.Core.Option.{Option, none, some}
use mathlib.Core.List.{List, [], ◌∷◌}
use native.Mathlib.Omega.{arith}
use ninja_validator.Base.Keys.{Key}

abbrev pub Dict {ℓ κ} : Type ℓ → Type κ → Type (ℓ ⊔ κ)
Dict K V = List (K × V)

module _ {ℓ κ} {K : Type ℓ} {V : Type κ} ⦃k : Key K⦄ where
  -- `d.get(a)`
  abbrev pub lookup : K → Dict K V → Option V
  lookup a [] = none
  lookup a ((b, v) ∷ d) = elim (k.dec a b) [ yes _ ↦ some v | no _ ↦ lookup a d ]

  -- `d.get(a, v)`
  abbrev pub lookup_or : V → K → Dict K V → V
  lookup_or v a d = elim (lookup a d) [ none ↦ v | some w ↦ w ]

  -- `d[a] = v`
  abbrev pub insert : K → V → Dict K V → Dict K V
  insert a v [] = (a, v) ∷ []
  insert a v ((b, w) ∷ d) = elim (k.dec a b) [ yes _ ↦ (b, v) ∷ d | no _ ↦ (b, w) ∷ insert a v d ]

  pub lookup-insert_self : (a : K) (v : V) (d : Dict K V) → lookup a (insert a v d) ≡ some v
  lookup-insert_self a v [] = ground arith
  lookup-insert_self a v ((b, w) ∷ d) = ground (arith, lookup-insert_self a v d)

  pub lookup-insert_ne :
      (a c : K) (v : V) (d : Dict K V) → c ≢ a → lookup c (insert a v d) ≡ lookup c d
  lookup-insert_ne a c v [] h = ground arith
  lookup-insert_ne a c v ((b, w) ∷ d) h = ground (arith, lookup-insert_ne a c v d h)
