-- ===== src/Qualification/Parse.antt =====
-- tau/qualification/parse.py: the client's text as a result. Python's JSON values are the interface Jsons, of which
-- nothing is assumed, and `textwrap.dedent` is a parameter. The summary, the reasons and the required changes, which
-- are only stored, are left out.
pub mod Parts
pub mod Sound
use ninja_validator.Base.{
  ℕ, zero, suc, ◌+◌, ◌-◌, min, String, Bool, true, false, Option, none, some, List, [], ◌∷◌, map,
  take, eqb, ltb, if◌then◌else◌,
}
use ninja_validator.Base.Texts.{codes, same_codes, starts_with}
use ninja_validator.Qualification.Policy.{
  SecurityVerdict, pass, warn, fail, RiskField, text, other, RiskItem, labelled, plain, unknown,
  SecurityQualificationResult, strip,
}

-- What `int(value)` comes to: a number, a negative one, a TypeError or ValueError, or an OverflowError.
pub data IntResult : Type 0 where
  whole : ℕ → IntResult
  negative refused overflow : IntResult

pub record Jsons : Type 1 where
  pub Value : Type 0
  pub loads : List ℕ → Option Value  -- `json.loads`, none for a JSONDecodeError
  pub is_object : Value → Bool  -- `isinstance(value, dict)`
  pub field : String → Value → Value  -- `value.get(name)` of a dict
  pub is_truthy : Value → Bool
  pub to_codes : Value → List ℕ  -- `str(value)`
  pub to_text : Value → String  -- `str(item)`
  pub as_text : Value → Option String  -- `isinstance(value, str)`
  pub items : Value → Option (List Value)  -- `isinstance(value, list)`
  pub to_int : Value → IntResult

-- `fenced.find(c)`
unfoldable pub find : ℕ → List ℕ → Option ℕ
find c [] = none
find c (x ∷ xs) =
    let rest = find c xs in
    if eqb x c then some 0 else elim rest [ none ↦ none | some n ↦ some (n + 1) ]

-- `fenced.rfind(c)`
unfoldable pub rfind : ℕ → List ℕ → Option ℕ
rfind c [] = none
rfind c (x ∷ xs) = elim (rfind c xs) [
  | some n ↦ some (n + 1)
  | none ↦ if eqb x c then some 0 else none
]

unfoldable pub drop : ℕ → List ℕ → List ℕ
drop zero xs = xs
drop (suc n) [] = []
drop (suc n) (x ∷ xs) = drop n xs

-- `fenced[start : end + 1]`, or none where there is no such part.
unfoldable pub braced : List ℕ → Option (List ℕ)
unfolding find rfind drop
braced fenced = elim (find b'{' fenced) [
  | none ↦ none
  | some start ↦ elim (rfind b'}' fenced) [
    | none ↦ none
    | some end ↦ if ltb end start then none else some (take (end + 1 - start) (drop start fenced))
  ]
]

-- `max(0, min(100, score))` of `int(value)`, or none for the exception that is not caught.
abbrev pub coerce_score : IntResult → Option ℕ
coerce_score (whole n) = some (min 100 n)
coerce_score negative = some 0
coerce_score refused = some 0
coerce_score overflow = none

abbrev pub verdict_value : SecurityVerdict → List ℕ
verdict_value pass = codes "pass"
verdict_value warn = codes "warn"
verdict_value fail = codes "fail"

-- How the parsing ends: with a result, a ValueError or an OverflowError.
pub data Parsed : Type 0 where
  parsed : SecurityQualificationResult → Parsed
  no_object overflowed : Parsed

module _ (js : Jsons) (lower : List ℕ → List ℕ) (is_space : ℕ → Bool)
    (dedent : List ℕ → List ℕ) where
  open js use {Value, loads, is_object, field, is_truthy, to_codes, to_text, as_text, items, to_int}

  -- The payload of a text that is a JSON object.
  abbrev pub load_object : List ℕ → Option Value
  load_object raw = elim (loads raw) [
    | none ↦ none
    | some payload ↦ if is_object payload then some payload else none
  ]

  -- The text between the fences, less the word json.
  abbrev pub fence_body : List ℕ → List ℕ
  fence_body fenced =
      let body = strip is_space (strip (λ c. eqb c b'`') fenced) in
      if starts_with (codes "json") body then strip is_space (drop 4 body) else body

  -- `_extract_json_object`
  unfoldable pub extract_json_object : List ℕ → Option Value
  unfolding strip drop braced
  extract_json_object raw =
      let fenced = strip is_space (dedent raw) in
      elim (load_object raw) [
        | some payload ↦ some payload
        | none ↦
            elim (if starts_with (codes "```") fenced
              then load_object (fence_body fenced)
              else none) [
                | some payload ↦ some payload
                | none ↦ elim (braced fenced) [ none ↦ none | some part ↦ load_object part ]
              ]
      ]

  -- `str(value or "fail").strip().lower()`
  abbrev pub verdict_text : Value → List ℕ
  verdict_text value =
      lower (strip is_space (if is_truthy value then to_codes value else codes "fail"))

  -- `_coerce_verdict`
  unfoldable pub coerce_verdict : Value → SecurityVerdict
  unfolding same_codes
  coerce_verdict value =
      let verdict = verdict_text value in
      if same_codes (codes "pass") verdict
      then pass
      else (if same_codes (codes "warn") verdict then warn else fail)

  abbrev pub risk_field : Value → RiskField
  risk_field value = elim (as_text value) [ some s ↦ text s | none ↦ other (is_truthy value) ]

  -- An item of the payload's risks, as the policy reads it.
  abbrev pub risk_item : Value → RiskItem
  risk_item value =
      if is_object value
      then labelled (risk_field (field "category" value)) (risk_field (field "type" value))
          (risk_field (field "name" value)) (risk_field (field "risk" value))
      else elim (as_text value) [ some s ↦ plain s | none ↦ unknown ]

  -- `_string_tuple`
  abbrev pub string_tuple : Value → List String
  string_tuple value = elim (items value) [ none ↦ [] | some values ↦ map to_text values ]

  abbrev pub risk_list : Value → Option (List RiskItem)
  risk_list value = elim (items value) [ none ↦ none | some values ↦ some (map risk_item values) ]

  unfoldable pub parse_security_qualification : List ℕ → Parsed
  unfolding extract_json_object coerce_verdict
  parse_security_qualification raw = elim (extract_json_object raw) [
    | none ↦ no_object
    | some payload ↦ elim (coerce_score (to_int (field "overall_score" payload))) [
      | none ↦ overflowed
      | some overall ↦ elim (coerce_score (to_int (field "security_score" payload))) [
        | none ↦ overflowed
        | some security ↦ parsed record {
          verdict = coerce_verdict (field "verdict" payload);
          overall_score = overall;
          security_score = security;
          risks = string_tuple (field "risks" payload);
          payload_risks = risk_list (field "risks" payload);
        }
      ]
    ]
  ]
