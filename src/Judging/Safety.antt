-- ===== src/Judging/Safety.antt =====
-- tau/judging/safety.py: the screen for injected prompts. `lower` is `str.lower`, on code points.
use ninja_validator.Base.{ℕ, String, Bool, List, [], ◌∷◌}
use ninja_validator.Base.Texts.{codes, has_any_phrase}

-- `_build_phrases`
abbrev pub phrases : List String
phrases =
    "ignore previous instructions" ∷ "ignore prior instructions" ∷ "ignore the above instructions"
    ∷ "as the evaluator" ∷ "as the judge" ∷ "dear evaluator" ∷ "dear judge" ∷ "choose king"
    ∷ "choose challenger" ∷ "choose candidate_a" ∷ "choose candidate_b" ∷ "pick king"
    ∷ "pick challenger" ∷ "pick candidate_a" ∷ "pick candidate_b" ∷ "select king"
    ∷ "select challenger" ∷ "select candidate_a" ∷ "select candidate_b" ∷ "king is correct"
    ∷ "challenger is correct" ∷ "candidate_a is correct" ∷ "candidate_b is correct" ∷ "king wins"
    ∷ "challenger wins" ∷ "candidate_a wins" ∷ "candidate_b wins" ∷ "the evaluator should"
    ∷ "the judge should" ∷ "other candidate is malicious" ∷ "the other candidate is malicious"
    ∷ "automatic fail" ∷ []

-- `detect_injection`: whether it finds one; the snippet, which is for people to read, is left out.
unfoldable pub detect_injection : (List ℕ → List ℕ) → String → Bool
unfolding has_any_phrase
detect_injection lower patch_text = has_any_phrase phrases (lower (codes patch_text))
