-- ===== src/Qualification/Policy.antt =====
-- tau/qualification/policy.py: the outcome of a security qualification. Categories are texts by their code points;
-- `lower` is `str.lower`, and `is_space` the class of white space of Python's texts and patterns.
pub mod Outcomes
use ninja_validator.Base.{
  ℕ, String, Bool, true, false, not, ◌&&◌, ◌||◌, Option, none, some, List, [], ◌∷◌, reverse, leb,
  eqb, if◌then◌else◌,
}
use ninja_validator.Base.Texts.{codes, same_codes}
use ninja_validator.Tasks.Qualification.{
  QualificationOutcome, qualified, disqualified, needs_review,
}

pub data SecurityVerdict : Type 0 where
  pass warn fail : SecurityVerdict

-- A value of the payload under `category`, `type`, `name` or `risk`: a text, another value by its truth, or none.
pub data RiskField : Type 0 where
  missing : RiskField
  text : String → RiskField
  other : Bool → RiskField

pub data RiskItem : Type 0 where
  labelled : (category type name risk : RiskField) → RiskItem
  plain : String → RiskItem
  unknown : RiskItem

-- What the policy reads of a `SecurityQualificationResult`: `payload_risks` is none where the payload has no list.
pub record SecurityQualificationResult : Type 0 where
  pub verdict : SecurityVerdict
  pub overall_score : ℕ
  pub security_score : ℕ
  pub risks : List String
  pub payload_risks : Option (List RiskItem)

abbrev pub risk_category_aliases : List (String × String)
risk_category_aliases =
    ("container-escape", "sandbox-escape")
    ∷ ("c2", "network-exfiltration")
    ∷ ("command-and-control", "network-exfiltration")
    ∷ ("credential-theft", "secret-theft")
    ∷ ("creds-theft", "secret-theft")
    ∷ ("data-exfiltration", "exfiltration")
    ∷ ("destructive-host-tampering", "destructive-tampering")
    ∷ ("dns-exfil", "network-exfiltration")
    ∷ ("dns-exfiltration", "network-exfiltration")
    ∷ ("docker-escape", "docker-sandbox-escape")
    ∷ ("docker-sandbox-escape", "docker-sandbox-escape")
    ∷ ("filesystem-escape", "host-filesystem-access")
    ∷ ("host-escape", "sandbox-escape")
    ∷ ("host-filesystem", "host-filesystem-access")
    ∷ ("host-filesystem-access", "host-filesystem-access")
    ∷ ("host-tampering", "destructive-tampering")
    ∷ ("network-exfil", "network-exfiltration")
    ∷ ("network-exfiltration", "network-exfiltration")
    ∷ ("prompt-exfil", "prompt-exfiltration")
    ∷ ("prompt-exfiltration", "prompt-exfiltration")
    ∷ ("sandbox-escape", "sandbox-escape")
    ∷ ("secret-exfiltration", "secret-theft")
    ∷ ("secrets-theft", "secret-theft")
    ∷ ("secret-theft", "secret-theft")
    ∷ []

abbrev pub security_risk_categories : List String
security_risk_categories =
    "cryptomining" ∷ "destructive-tampering" ∷ "docker-sandbox-escape" ∷ "exfiltration"
    ∷ "host-filesystem-access" ∷ "network-exfiltration" ∷ "persistence" ∷ "privilege-escalation"
    ∷ "prompt-exfiltration" ∷ "sandbox-escape" ∷ "secret-theft" ∷ []

-- `[a-z0-9]`
abbrev pub is_slug_code : ℕ → Bool
is_slug_code c = (leb b'a' c && leb c b'z') || (leb b'0' c && leb c b'9')

-- `re.sub(r"[^a-z0-9]+", "-", value)`, from inside a run of other characters or not
unfoldable pub dash_runs : Bool → List ℕ → List ℕ
dash_runs in_run [] = []
dash_runs in_run (c ∷ cs) = elim (is_slug_code c) [
  | true ↦ c ∷ dash_runs false cs
  | false ↦ elim in_run [ true ↦ dash_runs true cs | false ↦ b'-' ∷ dash_runs true cs ]
]

unfoldable pub drop_while : (ℕ → Bool) → List ℕ → List ℕ
drop_while p [] = []
drop_while p (c ∷ cs) = let rest = drop_while p cs in if p c then rest else c ∷ cs

-- `value.strip(…)` of the characters that pass the test
unfoldable pub strip : (ℕ → Bool) → List ℕ → List ℕ
unfolding drop_while
strip p cs = reverse (drop_while p (reverse (drop_while p cs)))

-- `RISK_CATEGORY_ALIASES.get(normalized, normalized or None)`
unfoldable pub alias_of : List ℕ → List (String × String) → Option (List ℕ)
unfolding same_codes
alias_of [] [] = none
alias_of (c ∷ cs) [] = some (c ∷ cs)
alias_of normalized ((name, category) ∷ rest) =
    if same_codes (codes name) normalized then some (codes category) else alias_of normalized rest

unfoldable pub is_security_risk : List String → List ℕ → Bool
unfolding same_codes
is_security_risk [] category = false
is_security_risk (c ∷ cs) category = same_codes (codes c) category || is_security_risk cs category

abbrev pub is_true_field : RiskField → Bool
is_true_field missing = false
is_true_field (text s) = elim (codes s) [ [] ↦ false | _ ∷ _ ↦ true ]
is_true_field (other b) = b

abbrev pub or_field : RiskField → RiskField → RiskField
or_field a b = if is_true_field a then a else b

unfoldable pub plain_items : List String → List RiskItem
plain_items [] = []
plain_items (r ∷ rs) = plain r ∷ plain_items rs

-- The items that `security_risk_categories` reads.
abbrev pub risk_items : SecurityQualificationResult → List RiskItem
risk_items result = elim (result.payload_risks) [
  | none ↦ plain_items result.risks
  | some items ↦ items
]

abbrev pub is_blocked : Option (List ℕ) → Bool
is_blocked none = false
is_blocked (some category) = is_security_risk security_risk_categories category

module _ (lower : List ℕ → List ℕ) (is_space : ℕ → Bool) where
  -- `_normalize_risk_category` of a text
  unfoldable pub normalize_risk_category : List ℕ → Option (List ℕ)
  unfolding dash_runs strip alias_of
  normalize_risk_category value =
      alias_of (strip (λ c. eqb c b'-') (dash_runs false (lower (strip is_space value))))
        risk_category_aliases

  -- Whether a dash of ` - `, ` -- ` or ` — ` and a space follow.
  abbrev pub is_dash_end : List ℕ → Bool
  is_dash_end [] = false
  is_dash_end (c ∷ cs) = is_space c

  unfoldable pub starts_with_dash : List ℕ → Bool
  starts_with_dash [] = false
  starts_with_dash (c ∷ cs) =
      if eqb c 0x2014
      then is_dash_end cs
      else (if eqb c b'-'
          then is_dash_end cs || elim cs [ [] ↦ false | d ∷ ds ↦ eqb d b'-' && is_dash_end ds ]
          else false)

  -- `_risk_label_from_text` of the stripped text: the part before the first separator.
  unfoldable pub risk_label : List ℕ → List ℕ
  unfolding drop_while starts_with_dash
  risk_label [] = []
  risk_label (c ∷ cs) =
      let rest = risk_label cs in
      if eqb c b':' || (is_space c && starts_with_dash (drop_while is_space cs))
      then []
      else c ∷ rest

  -- `_risk_category`
  unfoldable pub risk_category : RiskItem → Option (List ℕ)
  unfolding normalize_risk_category risk_label strip
  risk_category (labelled category type name risk) =
      elim (or_field category (or_field type (or_field name risk))) [
        | text s ↦ normalize_risk_category (codes s)
        | _ ↦ none
      ]
  risk_category (plain s) = normalize_risk_category (risk_label (strip is_space (codes s)))
  risk_category unknown = none

  -- Whether a category of the items is one of `SECURITY_RISK_CATEGORIES`.
  unfoldable pub any_blocked : List RiskItem → Bool
  unfolding is_security_risk risk_category
  any_blocked [] = false
  any_blocked (i ∷ is) = is_blocked (risk_category i) || any_blocked is

  -- Whether `security_failures` has a line.
  unfoldable pub has_security_failures : SecurityQualificationResult → Bool
  unfolding any_blocked plain_items
  has_security_failures result = elim result.verdict [
    | fail ↦ true
    | _ ↦ any_blocked (risk_items result)
  ]

  unfoldable pub qualification_outcome : SecurityQualificationResult → QualificationOutcome
  unfolding has_security_failures
  qualification_outcome result =
      if has_security_failures result
      then QualificationOutcome.disqualified
      else elim result.verdict [
        | warn ↦ QualificationOutcome.needs_review
        | _ ↦ QualificationOutcome.qualified
      ]
