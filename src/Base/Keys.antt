-- ===== src/Base/Keys.antt =====
-- Equality tests as decisions: the `==` and `in` of Python on ids, keys and numbers.
use Prim.Native.Nat.{ℕ}
use Prim.Native.String.{String}
use mathlib.Core.Path.{◌≡◌, refl}
use mathlib.Core.Logic.{◌↔◌}
use mathlib.Core.Bool.{Bool, true, false, false≢true}
use mathlib.Core.List.{List, [], ◌∷◌}
use native.Mathlib.Decide.{ℕ_discrete}
use text.Mathlib.Text.{◌==◌ as str_eq}
use text.Mathlib.TextEquality.{eq_iff}

pub record Key {ℓ} (A : Type ℓ) : Type ℓ where
  pub dec : Discrete A

infix 50 ◌==◌
abbrev pub ◌==◌ {ℓ} : {A : Type ℓ} ⦃k : Key A⦄ → A → A → Bool
◌==◌ ⦃k⦄ a b = elim (k.dec a b) [ yes _ ↦ true | no _ ↦ false ]

abbrev dec_of_test : {P : Type 0} (b : Bool) → (b ≡ true) ↔ P → Dec P
dec_of_test true h = yes (h.0 refl)
dec_of_test false h = no (λ p. false≢true (h.1 p))

unfoldable pub String-discrete : Discrete String
String-discrete s t = dec_of_test (str_eq s t) (eq_iff s t)

instance abbrev pub string_key : Key String
string_key = record { dec = String-discrete }

instance abbrev pub nat_key : Key ℕ
nat_key = record { dec = ℕ_discrete }

module _ {ℓ} {A : Type ℓ} ⦃k : Key A⦄ where
  -- `a in xs`
  abbrev pub contains : A → List A → Bool
  contains a [] = false
  contains a (x ∷ xs) = elim (k.dec a x) [ yes _ ↦ true | no _ ↦ contains a xs ]
