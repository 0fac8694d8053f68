-- ===== src/Qualification/Policy/Outcomes.antt =====
-- Which results qualify a submission.
use ninja_validator.Base.{
  ℕ, ◌≡◌, ◌↔◌, refl, sym, ◌∙◌, ◌||◌, if◌then◌else◌, Bool, true, false, List, [], ◌∷◌, arith,
}
use ninja_validator.Tasks.Qualification.{
  QualificationOutcome, qualified, disqualified, needs_review,
}
use ninja_validator.Qualification.Policy.{
  SecurityVerdict, pass, warn, fail, RiskItem, SecurityQualificationResult, risk_category,
  risk_items, is_blocked, any_blocked, has_security_failures, qualification_outcome,
}

or_false : (a : Bool) {b : Bool} → (a || b) ≡ false → (a ≡ false) × (b ≡ false)
or_false true e = absurd (ground arith)
or_false false e = (refl, e)

false_or : (a : Bool) {b : Bool} → a ≡ false → b ≡ false → (a || b) ≡ false
false_or true e f = absurd (ground arith)
false_or false e f = f

module _ (lower : List ℕ → List ℕ) (is_space : ℕ → Bool) where
  -- No item is of a category that disqualifies.
  pub AreHarmless : List RiskItem → Type 0
  AreHarmless [] = Unit
  AreHarmless (i ∷ is) = (is_blocked (risk_category lower is_space i) ≡ false) × AreHarmless is

  any_blocked-AreHarmless :
      (is : List RiskItem) → any_blocked lower is_space is ≡ false → AreHarmless is
  unfolding any_blocked AreHarmless
  any_blocked-AreHarmless [] e = tt
  any_blocked-AreHarmless (i ∷ is) e =
      let (first, rest) = or_false (is_blocked (risk_category lower is_space i)) e in
      (first, any_blocked-AreHarmless is rest)

  AreHarmless-any_blocked :
      (is : List RiskItem) → AreHarmless is → any_blocked lower is_space is ≡ false
  unfolding any_blocked AreHarmless
  AreHarmless-any_blocked [] h = refl
  AreHarmless-any_blocked (i ∷ is) (a, h) =
      false_or (is_blocked (risk_category lower is_space i)) a (AreHarmless-any_blocked is h)

  -- The outcome by the verdict and whether an item disqualifies.
  unfoldable by_verdict : (verdict : SecurityVerdict) (blocked : Bool) → QualificationOutcome
  by_verdict fail blocked = disqualified
  by_verdict pass blocked = if blocked then disqualified else qualified
  by_verdict warn blocked = if blocked then disqualified else needs_review

  outcome-by_verdict :
      (result : SecurityQualificationResult)
      → qualification_outcome lower is_space result
        ≡ by_verdict result.verdict (any_blocked lower is_space (risk_items result))
  unfolding by_verdict qualification_outcome has_security_failures
  outcome-by_verdict result =
      elim result.verdict
          as (λ v.
            result.verdict ≡ v
            → qualification_outcome lower is_space result
              ≡ by_verdict v (any_blocked lower is_space (risk_items result))) [
                | pass ↦ λ v. ground (arith, v)
                | warn ↦ λ v. ground (arith, v)
                | fail ↦ λ v. ground (arith, v)
              ]
        refl

  by_verdict-qualified :
      (v : SecurityVerdict) (b : Bool) → (by_verdict v b ≡ qualified) ↔ ((v ≡ pass) × (b ≡ false))
  unfolding by_verdict
  by_verdict-qualified pass true = ((λ e. absurd (ground arith)), (λ (a, b). absurd (ground arith)))
  by_verdict-qualified pass false = ((λ e. (refl, refl)), (λ h. refl))
  by_verdict-qualified warn true = ((λ e. absurd (ground arith)), (λ (a, b). absurd (ground arith)))
  by_verdict-qualified warn false =
      ((λ e. absurd (ground arith)), (λ (a, b). absurd (ground arith)))
  by_verdict-qualified fail b = ((λ e. absurd (ground arith)), (λ (a, b). absurd (ground arith)))

  by_verdict-needs_review :
      (v : SecurityVerdict) (b : Bool)
      → (by_verdict v b ≡ needs_review) ↔ ((v ≡ warn) × (b ≡ false))
  unfolding by_verdict
  by_verdict-needs_review warn true =
      ((λ e. absurd (ground arith)), (λ (a, b). absurd (ground arith)))
  by_verdict-needs_review warn false = ((λ e. (refl, refl)), (λ h. refl))
  by_verdict-needs_review pass true =
      ((λ e. absurd (ground arith)), (λ (a, b). absurd (ground arith)))
  by_verdict-needs_review pass false =
      ((λ e. absurd (ground arith)), (λ (a, b). absurd (ground arith)))
  by_verdict-needs_review fail b = ((λ e. absurd (ground arith)), (λ (a, b). absurd (ground arith)))

  -- A result qualifies a submission exactly if its verdict is pass and none of its items is of a category that disqualifies, and
  -- sends it to a review exactly if its verdict is warn and none of its items is.
  pub qualification_outcome_exact :
      (result : SecurityQualificationResult)
      → ((qualification_outcome lower is_space result ≡ qualified)
          ↔ ((result.verdict ≡ pass) × AreHarmless (risk_items result)))
        × ((qualification_outcome lower is_space result ≡ needs_review)
            ↔ ((result.verdict ≡ warn) × AreHarmless (risk_items result)))
  qualification_outcome_exact result =
      let items = risk_items result in
      let blocked = any_blocked lower is_space items in
      let same = outcome-by_verdict result in
      let (q_to, q_from) = by_verdict-qualified result.verdict blocked in
      let (r_to, r_from) = by_verdict-needs_review result.verdict blocked in
      (
        (
          (λ e. let (v, b) = q_to (sym same ∙ e) in (v, any_blocked-AreHarmless items b)),
          (λ (v, h). same ∙ q_from (v, AreHarmless-any_blocked items h)),
        ),
        (
          (λ e. let (v, b) = r_to (sym same ∙ e) in (v, any_blocked-AreHarmless items b)),
          (λ (v, h). same ∙ r_from (v, AreHarmless-any_blocked items h)),
        ),
      )
