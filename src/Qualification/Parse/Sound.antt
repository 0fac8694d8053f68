-- ===== src/Qualification/Parse/Sound.antt =====
-- What a parsed result tells of the client's text.
use ninja_validator.Base.{
  eqb, if◌then◌else◌, ℕ, ◌≤◌, ◌≡◌, refl, subst, ◌⊎◌, inl, inr, Bool, true, false, Option, none,
  some, List, arith, if◌then◌else◌,
}
use ninja_validator.Base.Texts.{codes, same_codes, starts_with}
use ninja_validator.Qualification.Policy.{SecurityVerdict, fail, SecurityQualificationResult, strip}
use ninja_validator.Qualification.Parse.Parts.{
  IsPart, IsPart-trans, strip-IsPart, drop-IsPart, braced-IsPart,
}
use ninja_validator.Qualification.Parse.{
  drop, IntResult, whole, negative, refused, overflow, Jsons, braced, coerce_score, verdict_value,
  parsed, load_object, fence_body, extract_json_object, verdict_text, coerce_verdict, risk_list,
  string_tuple, parse_security_qualification,
}

coerce_score-bound : (i : IntResult) (n : ℕ) → coerce_score i ≡ some n → n ≤ 100
coerce_score-bound (whole m) n e = ground arith
coerce_score-bound negative n e = ground arith
coerce_score-bound refused n e = ground arith
coerce_score-bound overflow n e = absurd (ground arith)

first_of :
    {A : Type 0} {p : A} (a : Option A) {b : Option A}
    → elim a as (λ _. Option A) [ some x ↦ some x | none ↦ b ] ≡ some p
    → (a ≡ some p) ⊎ (b ≡ some p)
first_of none e = inr e
first_of (some x) e = inl e

module _ (js : Jsons) (lower : List ℕ → List ℕ) (is_space : ℕ → Bool)
    (dedent : List ℕ → List ℕ) where
  open js use {Value, loads, is_object, field, is_truthy, to_codes, to_int}

  -- The text is JSON for the payload, an object.
  abbrev Loads : List ℕ → Value → Type 0
  Loads part payload = (loads part ≡ some payload) × (is_object payload ≡ true)

  load_object-Loads :
      (part : List ℕ) (payload : Value)
      → load_object js lower is_space dedent part ≡ some payload
      → Loads part payload
  load_object-Loads part payload e =
      elim (loads part) as (λ o. loads part ≡ o → Loads part payload) [
        | none ↦ λ l. absurd (ground arith)
        | some v ↦ λ l.
            elim (is_object v) as (λ b. is_object v ≡ b → Loads part payload) [
              | true ↦ λ b. (ground arith, ground arith)
              | false ↦ λ b. absurd (ground arith)
            ]
              refl
      ]
        refl

  fence_body-IsPart : (fenced : List ℕ) → IsPart (fence_body js lower is_space dedent fenced) fenced
  fence_body-IsPart fenced =
      let bare = strip (λ c. eqb c b'`') fenced in
      let body = strip is_space bare in
      let inside =
        IsPart-trans body bare fenced (strip-IsPart is_space bare)
          (strip-IsPart (λ c. eqb c b'`') fenced) in
      elim (starts_with (codes "json") body)
        as (λ b. IsPart (if b then strip is_space (drop 4 body) else body) fenced) [
          | true ↦
              IsPart-trans (strip is_space (drop 4 body)) body fenced
                (IsPart-trans (strip is_space (drop 4 body)) (drop 4 body) body
                  (strip-IsPart is_space (drop 4 body)) (drop-IsPart 4 body))
                inside
          | false ↦ inside
        ]

  -- The payload is the object of the whole text, or of a part of it once it is dedented.
  abbrev pub IsFound : List ℕ → Value → Type 0
  IsFound raw payload =
      (part : List ℕ) × (loads part ≡ some payload)
      × (is_object payload ≡ true)
      × ((part ≡ raw) ⊎ IsPart part (dedent raw))

  part-IsFound :
      (raw part : List ℕ) (payload : Value)
      → load_object js lower is_space dedent part ≡ some payload
      → IsPart part (strip is_space (dedent raw))
      → IsFound raw payload
  part-IsFound raw part payload e h =
      let (l, o) = load_object-Loads part payload e in
      (
        part,
        l,
        o,
        inr (
            IsPart-trans part (strip is_space (dedent raw)) (dedent raw) h
              (strip-IsPart is_space (dedent raw))),
      )

  -- Each of the three attempts finds a part.
  extract-IsFound :
      (raw : List ℕ) (payload : Value)
      → extract_json_object js lower is_space dedent raw ≡ some payload
      → IsFound raw payload
  unfolding extract_json_object
  extract-IsFound raw payload e =
      let load = load_object js lower is_space dedent in
      let fenced = strip is_space (dedent raw) in
      let body = fence_body js lower is_space dedent fenced in
      elim (first_of (load raw) e) [
        | inl a ↦ let (l, o) = load_object-Loads raw payload a in (raw, l, o, inl refl)
        | inr b ↦ elim (first_of (if starts_with (codes "```") fenced then load body else none) b) [
          | inl c ↦
              elim (starts_with (codes "```") fenced)
                  as (λ s. starts_with (codes "```") fenced ≡ s → IsFound raw payload) [
                    | true ↦
                        λ s. part-IsFound raw body payload (ground arith) (fence_body-IsPart fenced)
                    | false ↦ λ s. absurd (ground arith)
                  ]
                refl
          | inr d ↦
              elim (braced fenced) as (λ o. braced fenced ≡ o → IsFound raw payload) [
                | none ↦ λ o. absurd (ground arith)
                | some part ↦
                    λ o. part-IsFound raw part payload (ground arith) (braced-IsPart fenced part o)
              ]
                refl
        ]
      ]

  -- The verdict as the payload spells it, lowered and without the white space around it; where it has none, the word fail so.
  abbrev pub spelled : Value → List ℕ
  spelled payload = elim (is_truthy (field "verdict" payload)) [
    | true ↦ lower (strip is_space (to_codes (field "verdict" payload)))
    | false ↦ lower (strip is_space (codes "fail"))
  ]

  verdict_text-spelled :
      (payload : Value)
      → verdict_text js lower is_space dedent (field "verdict" payload) ≡ spelled payload
  verdict_text-spelled payload =
      elim (is_truthy (field "verdict" payload))
        as (λ b.
          lower (strip is_space (if b then to_codes (field "verdict" payload) else codes "fail"))
          ≡ elim b as (λ _. List ℕ) [
            | true ↦ lower (strip is_space (to_codes (field "verdict" payload)))
            | false ↦ lower (strip is_space (codes "fail"))
          ]) [ true ↦ refl | false ↦ refl ]

  -- The verdict is fail, or the one that the payload spells.
  abbrev pub Spells : Value → SecurityVerdict → Type 0
  Spells payload verdict =
      (verdict ≡ fail) ⊎ (same_codes (verdict_value verdict) (spelled payload) ≡ true)

  coerce_verdict-Spells :
      (payload : Value)
      → Spells payload (coerce_verdict js lower is_space dedent (field "verdict" payload))
  unfolding coerce_verdict
  coerce_verdict-Spells payload =
      let verdict = verdict_text js lower is_space dedent (field "verdict" payload) in
      elim (same_codes (codes "pass") verdict)
          as (λ b.
            same_codes (codes "pass") verdict ≡ b
            → Spells payload (coerce_verdict js lower is_space dedent (field "verdict" payload))) [
              | true ↦ λ e. inr (ground (arith, verdict_text-spelled payload))
              | false ↦ λ e.
                  elim (same_codes (codes "warn") verdict)
                      as (λ b.
                        same_codes (codes "warn") verdict ≡ b
                        → Spells payload
                            (coerce_verdict js lower is_space dedent (field "verdict" payload))) [
                              | true ↦ λ f. inr (ground (arith, verdict_text-spelled payload))
                              | false ↦ λ f. inl (ground arith)
                            ]
                    refl
            ]
        refl

  -- What a result that was parsed has of the text.
  abbrev pub IsRead : List ℕ → SecurityQualificationResult → Type 0
  IsRead raw r =
      (payload : Value) × (extract_json_object js lower is_space dedent raw ≡ some payload)
      × IsFound raw payload
      × Spells payload r.verdict
      × (r.payload_risks ≡ risk_list js lower is_space dedent (field "risks" payload))
      × (r.overall_score ≤ 100)
      × (r.security_score ≤ 100)

  -- A result that is parsed comes of a JSON object that is the client's whole text, or the codes of which stand together in the
  -- dedented text, with the risks that it lists: its verdict is fail, or the one that the object spells (the word fail, where it
  -- has none), and its scores are at most 100.
  pub parse_security_qualification-IsRead :
      (raw : List ℕ) (r : SecurityQualificationResult)
      → parse_security_qualification js lower is_space dedent raw ≡ parsed r
      → IsRead raw r
  unfolding parse_security_qualification
  parse_security_qualification-IsRead raw r e =
      let extract = extract_json_object js lower is_space dedent raw in
      elim extract as (λ o. extract ≡ o → IsRead raw r) [
        | none ↦ λ o. absurd (ground arith)
        | some payload ↦ λ o.
            let overall = coerce_score (to_int (field "overall_score" payload)) in
            let security = coerce_score (to_int (field "security_score" payload)) in
            elim overall as (λ n. overall ≡ n → IsRead raw r) [
              | none ↦ λ n. absurd (ground arith)
              | some a ↦ λ n.
                  elim security as (λ m. security ≡ m → IsRead raw r) [
                    | none ↦ λ m. absurd (ground arith)
                    | some b ↦ λ m.
                        let made : SecurityQualificationResult = record {
                          verdict =
                              coerce_verdict js lower is_space dedent (field "verdict" payload);
                          overall_score = a;
                          security_score = b;
                          risks = string_tuple js lower is_space dedent (field "risks" payload);
                          payload_risks =
                              risk_list js lower is_space dedent (field "risks" payload);
                        } in
                        let same : made ≡ r = ground arith in
                        subst (IsRead raw) same (
                          payload,
                          o,
                          extract-IsFound raw payload o,
                          coerce_verdict-Spells payload,
                          refl,
                          coerce_score-bound (to_int (field "overall_score" payload)) a n,
                          coerce_score-bound (to_int (field "security_score" payload)) b m,
                        )
                  ]
                    refl
            ]
              refl
      ]
        refl
