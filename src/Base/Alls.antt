-- ===== src/Base/Alls.antt =====
-- What holds of all elements of a list, of the elements of lists that are made of it.
use Prim.Native.Nat.{ℕ, zero, suc}
use mathlib.Core.Path.{◌≡◌, refl}
use mathlib.Core.Bool.{Bool, true, false}
use mathlib.Core.List.{List, [], ◌∷◌, ◌++◌, map, Memᴰ}
use ninja_validator.Base.Tests.{if◌then◌else◌}
use ninja_validator.Base.Lists.{All, take, keep, insert_by, sort_by}

module _ {ℓ κ} {A : Type ℓ} (P : A → Type κ) where
  pub All-imp : {Q : A → Type κ} → ((x : A) → P x → Q x) → (xs : List A) → All P xs → All Q xs
  All-imp f [] h = tt
  All-imp f (x ∷ xs) h = (f x h.0, All-imp f xs h.1)

  pub All-append : (xs ys : List A) → All P xs → All P ys → All P (xs ++ ys)
  All-append [] ys h k = k
  All-append (x ∷ xs) ys h k = (h.0, All-append xs ys h.1 k)

  pub All-take : (n : ℕ) (xs : List A) → All P xs → All P (take n xs)
  All-take zero xs h = tt
  All-take (suc n) [] h = tt
  All-take (suc n) (x ∷ xs) h = (h.0, All-take n xs h.1)

  pub All-choice :
      (b : Bool) (xs ys : List A)
      → (b ≡ true → All P xs)
      → (b ≡ false → All P ys)
      → All P (elim b [ true ↦ xs | false ↦ ys ])
  All-choice true xs ys h k = h refl
  All-choice false xs ys h k = k refl

  pub All-if :
      (b : Bool) (xs ys : List A)
      → (b ≡ true → All P xs)
      → (b ≡ false → All P ys)
      → All P (if b then xs else ys)
  All-if true xs ys h k = h refl
  All-if false xs ys h k = k refl

  pub All-insert_by :
      (le : A → A → Bool) (a : A) (xs : List A) → P a → All P xs → All P (insert_by le a xs)
  All-insert_by le a [] p h = (p, tt)
  All-insert_by le a (x ∷ xs) p h =
      All-choice (le a x) (a ∷ x ∷ xs) (x ∷ insert_by le a xs) (λ _. (p, h))
        (λ _. (h.0, All-insert_by le a xs p h.1))

  pub All-sort_by : (le : A → A → Bool) (xs : List A) → All P xs → All P (sort_by le xs)
  All-sort_by le [] h = tt
  All-sort_by le (x ∷ xs) h = All-insert_by le x (sort_by le xs) h.0 (All-sort_by le xs h.1)

-- What a list's elements have, those that pass a test have with it.
pub All-keep {ℓ κ} :
    {A : Type ℓ} (P : A → Type κ) (p : A → Bool) (xs : List A)
    → All P xs
    → All (λ x. P x × (p x ≡ true)) (keep p xs)
All-keep P p [] h = tt
All-keep P p (x ∷ xs) h =
    All-choice (λ x. P x × (p x ≡ true)) (p x) (x ∷ keep p xs) (keep p xs)
      (λ e. ((h.0, e), All-keep P p xs h.1)) (λ _. All-keep P p xs h.1)

-- Every element of a list is a member of it.
pub All-Mem {ℓ} : {A : Type ℓ} (xs : List A) → All (λ x. Memᴰ x xs) xs
All-Mem [] = tt
All-Mem (x ∷ xs) = (Memᴰ.head refl, All-imp (λ y. Memᴰ y xs) (λ y m. Memᴰ.tail m) xs (All-Mem xs))

pub All-map {ℓ ν κ} :
    {A : Type ℓ} {B : Type ν} (P : B → Type κ) (f : A → B) (xs : List A)
    → All (λ x. P (f x)) xs
    → All P (map f xs)
All-map P f [] h = tt
All-map P f (x ∷ xs) h = (h.0, All-map P f xs h.1)

pub every_element {ℓ κ} : {A : Type ℓ} (P : A → Type κ) → ((x : A) → P x) → (xs : List A) → All P xs
every_element P f [] = tt
every_element P f (x ∷ xs) = (f x, every_element P f xs)
