-- ===== src/Qualification/Client/Passed.antt =====
-- What the client said of a submission that a poll makes eligible.
use ninja_validator.Base.{ℕ, ◌<◌, ◌≡◌, refl, inl, inr, String, Bool, true, some, List, arith}
use ninja_validator.Base.Texts.{codes, same_codes}
use ninja_validator.Floats.{Floats}
use ninja_validator.Arena.Tables.{Arena}
use ninja_validator.Tasks.Qualification.{QualificationCandidate, next_candidate}
use ninja_validator.Qualification.Policy.{
  SecurityQualificationResult, SecurityVerdict, pass, risk_items,
}
use ninja_validator.Qualification.Policy.Outcomes.{AreHarmless}
use ninja_validator.Qualification.Parse.{
  Jsons, parsed, no_object, overflowed, extract_json_object, parse_security_qualification,
}
use ninja_validator.Qualification.Parse.Sound.{spelled, Spells, parse_security_qualification-IsRead}
use ninja_validator.Qualification.Worker.{result, run_once}
use ninja_validator.Qualification.Worker.Cleared.{eligible_count, run_once-IsCleared}
use ninja_validator.Qualification.Client.{
  Completion, completed, failed, qualify_submission_security,
}

module _ (js : Jsons) (lower : List ℕ → List ℕ) (is_space : ℕ → Bool)
    (dedent : List ℕ → List ℕ) where
  open js use {Value, is_object, field}

  -- A result is given only for a text that parses to it.
  result-parsed :
      (completion : Completion) (r : SecurityQualificationResult)
      → qualify_submission_security js lower is_space dedent completion ≡ result r
      → (raw : List ℕ) × (completion ≡ completed raw)
        × (parse_security_qualification js lower is_space dedent raw ≡ parsed r)
  unfolding qualify_submission_security
  result-parsed (failed error) r e = absurd (ground arith)
  result-parsed (completed raw) r e =
      let parse = parse_security_qualification js lower is_space dedent raw in
      elim parse
          as (λ p.
            parse ≡ p
            → (raw' : List ℕ) × (completed raw ≡ completed raw')
              × (parse_security_qualification js lower is_space dedent raw' ≡ parsed r)) [
                | parsed s ↦ λ p. (raw, refl, ground arith)
                | no_object ↦ λ p. absurd (ground arith)
                | overflowed ↦ λ p. absurd (ground arith)
              ]
        refl

  spelled_pass :
      (payload : Value) (v : SecurityVerdict)
      → v ≡ pass
      → Spells js lower is_space dedent payload v
      → same_codes (codes "pass") (spelled js lower is_space dedent payload) ≡ true
  spelled_pass payload v e (inl f) = absurd (ground arith)
  spelled_pass payload v e (inr s) = ground arith

  module _ (fl : Floats) where
    -- What the client said of the candidate at the head of the queue.
    abbrev pub IsPassed :
        (String → String → Bool) → ℕ → (QualificationCandidate → Completion) → Arena fl → Type 0
    IsPassed text_le window_size complete db =
        (c : QualificationCandidate) × (next_candidate fl text_le window_size db ≡ some c)
        × (raw : List ℕ) × (complete c ≡ completed raw)
        × (payload : Value) × (extract_json_object js lower is_space dedent raw ≡ some payload)
        × (is_object payload ≡ true)
        × (same_codes (codes "pass") (spelled js lower is_space dedent payload) ≡ true)
        × (r : SecurityQualificationResult) × (parse_security_qualification js lower is_space dedent
              raw
            ≡ parsed r)
        × AreHarmless lower is_space (risk_items r)

    -- Where a poll leaves more eligible submissions than there were, the client completed the prompt for the head of the queue with
    -- a text that holds a JSON object whose verdict is spelled pass, and no item of the result that is parsed from it is of a
    -- category that disqualifies.
    pub run_once-IsPassed :
        (text_le : String → String → Bool) (window_size : ℕ)
        (complete : QualificationCandidate → Completion) (available : Bool) (db : Arena fl)
        → eligible_count fl db
          < eligible_count fl
              (run_once fl lower is_space text_le window_size
                (λ c. qualify_submission_security js lower is_space dedent (complete c))
                available
                db).0
        → IsPassed text_le window_size complete db
    run_once-IsPassed text_le window_size complete available db more =
        let (c, head, r, answered, v, harmless) =
          run_once-IsCleared fl lower is_space text_le window_size
            (λ c. qualify_submission_security js lower is_space dedent (complete c)) available db
            more in
        let (raw, done, read) = result-parsed (complete c) r answered in
        let (payload, found, (part, loaded, object, place), spells, _, _, _) =
          parse_security_qualification-IsRead js lower is_space dedent raw r read in
        (
          c,
          head,
          raw,
          done,
          payload,
          found,
          object,
          spelled_pass payload r.verdict v spells,
          r,
          read,
          harmless,
        )
