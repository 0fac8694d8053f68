-- ===== src/Base/Texts.antt =====
-- Tests on texts, by their code points.
use Prim.Native.Char.{code}
use Prim.Native.Nat.{ℕ}
use Prim.Native.String.{String}
use mathlib.Core.Bool.{Bool, true, false, ◌&&◌, ◌||◌}
use mathlib.Core.List.{List, [], ◌∷◌}
use ninja_validator.Base.Tests.{eqb, if◌then◌else◌}

abbrev pub codes : String → List ℕ
codes String.[] = []
codes (String.◌∷◌ c s) = code c ∷ codes s

unfoldable pub same_codes : List ℕ → List ℕ → Bool
same_codes [] [] = true
same_codes (x ∷ xs) (y ∷ ys) = eqb x y && same_codes xs ys
same_codes _ _ = false

-- `text.endswith(ext)`
unfoldable pub ends_with : List ℕ → List ℕ → Bool
unfolding same_codes
ends_with ext [] = same_codes ext []
ends_with ext (c ∷ cs) =
    let rest = ends_with ext cs in if same_codes ext (c ∷ cs) then true else rest

-- `text.startswith(start)`
unfoldable pub starts_with : List ℕ → List ℕ → Bool
starts_with [] text = true
starts_with (x ∷ xs) [] = false
starts_with (x ∷ xs) (y ∷ ys) = eqb x y && starts_with xs ys

-- `phrase in text`
unfoldable pub has_phrase : List ℕ → List ℕ → Bool
unfolding starts_with
has_phrase phrase [] = starts_with phrase []
has_phrase phrase (c ∷ cs) =
    let rest = has_phrase phrase cs in if starts_with phrase (c ∷ cs) then true else rest

unfoldable pub has_any_phrase : List String → List ℕ → Bool
unfolding has_phrase
has_any_phrase [] text = false
has_any_phrase (p ∷ ps) text = has_phrase (codes p) text || has_any_phrase ps text
