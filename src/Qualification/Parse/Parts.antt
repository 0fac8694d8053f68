-- ===== src/Qualification/Parse/Parts.antt =====
-- The texts that the parsing cuts out are parts of the client's.
use ninja_validator.Base.{
  ℕ, zero, suc, ◌+◌, ◌-◌, ◌≡◌, refl, sym, ap, ◌∙◌, subst, Bool, true, false, some, List, [], ◌∷◌,
  ◌++◌, reverse, take, inl, inr, Option-cases, arith, if◌then◌else◌,
}
use mathlib.Core.List.{append-nil, append_assoc, reverse-append, reverse-reverse}
use ninja_validator.Qualification.Policy.{drop_while, strip}
use ninja_validator.Qualification.Parse.{find, rfind, drop, braced}

-- The codes stand together in the text.
abbrev pub IsPart : List ℕ → List ℕ → Type 0
IsPart part whole = (before : List ℕ) × (after : List ℕ) × (whole ≡ before ++ (part ++ after))

pub IsPart-refl : (text : List ℕ) → IsPart text text
IsPart-refl text = ([], [], sym (append-nil text))

pub IsPart-trans : (a b c : List ℕ) → IsPart a b → IsPart b c → IsPart a c
IsPart-trans a b c (x, y, e) (u, v, f) = (
  u ++ x,
  y ++ v,
  f
      ∙ ap (λ z. u ++ (z ++ v)) e
      ∙ ap (λ z. u ++ z) (append_assoc x (a ++ y) v ∙ ap (λ z. x ++ z) (append_assoc a y v))
      ∙ sym (append_assoc u x (a ++ (y ++ v))),
)

suffix-IsPart : (before part : List ℕ) → IsPart part (before ++ part)
suffix-IsPart before part = (before, [], ap (λ z. before ++ z) (sym (append-nil part)))

cons-IsPart : (c : ℕ) (part text : List ℕ) → IsPart part text → IsPart part (c ∷ text)
cons-IsPart c part text (x, y, e) = (c ∷ x, y, ap (λ z. c ∷ z) e)

drop_while-IsPart : (p : ℕ → Bool) (cs : List ℕ) → IsPart (drop_while p cs) cs
unfolding drop_while
drop_while-IsPart p [] = IsPart-refl []
drop_while-IsPart p (c ∷ cs) =
    elim (p c) as (λ b. IsPart (if b then drop_while p cs else c ∷ cs) (c ∷ cs)) [
      | true ↦ cons-IsPart c (drop_while p cs) cs (drop_while-IsPart p cs)
      | false ↦ IsPart-refl (c ∷ cs)
    ]

reverse-IsPart : (a b : List ℕ) → IsPart a b → IsPart (reverse a) (reverse b)
reverse-IsPart a b (x, y, e) = (
  reverse y,
  reverse x,
  ap reverse e
      ∙ reverse-append x (a ++ y)
      ∙ ap (λ z. z ++ reverse x) (reverse-append a y)
      ∙ append_assoc (reverse y) (reverse a) (reverse x),
)

pub strip-IsPart : (p : ℕ → Bool) (cs : List ℕ) → IsPart (strip p cs) cs
unfolding strip
strip-IsPart p cs =
    let d = drop_while p cs in
    let kept =
      reverse-IsPart (drop_while p (reverse d)) (reverse d) (drop_while-IsPart p (reverse d)) in
    IsPart-trans (reverse (drop_while p (reverse d))) d cs
      (subst (IsPart (reverse (drop_while p (reverse d)))) (reverse-reverse d) kept)
      (drop_while-IsPart p cs)

pub drop-IsPart : (n : ℕ) (cs : List ℕ) → IsPart (drop n cs) cs
unfolding drop
drop-IsPart zero cs = IsPart-refl cs
drop-IsPart (suc n) [] = IsPart-refl []
drop-IsPart (suc n) (c ∷ cs) = cons-IsPart c (drop n cs) cs (drop-IsPart n cs)

take-drop : (n : ℕ) (cs : List ℕ) → cs ≡ take n cs ++ drop n cs
unfolding drop
take-drop zero cs = refl
take-drop (suc n) [] = refl
take-drop (suc n) (c ∷ cs) = ap (λ z. c ∷ z) (take-drop n cs)

take-IsPart : (n : ℕ) (cs : List ℕ) → IsPart (take n cs) cs
take-IsPart n cs = ([], drop n cs, take-drop n cs)

pub braced-IsPart : (fenced part : List ℕ) → braced fenced ≡ some part → IsPart part fenced
unfolding braced
braced-IsPart fenced part e = elim (Option-cases (find b'{' fenced)) [
  | inl n ↦ absurd (ground arith)
  | inr (start, s) ↦ elim (Option-cases (rfind b'}' fenced)) [
    | inl n ↦ absurd (ground arith)
    | inr (end, t) ↦
        let rest = drop start fenced in
        let cut : take (end + 1 - start) rest ≡ part = ground arith in
        IsPart-trans part rest fenced
          (subst (λ z. IsPart z rest) cut (take-IsPart (end + 1 - start) rest))
          (drop-IsPart start fenced)
  ]
]
