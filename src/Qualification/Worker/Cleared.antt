-- ===== src/Qualification/Worker/Cleared.antt =====
-- What it takes for a poll to make a submission eligible.
use ninja_validator.Base.{
  ℕ, ◌<◌, ◌≤◌, ◌≡◌, refl, String, Bool, false, none, some, List, [], ◌∷◌, count_if, arith,
}
use ninja_validator.Floats.{Floats}
use ninja_validator.Arena.Tables.{Arena, Submission, SubmissionStatus}
use ninja_validator.Arena.Queries.{is_eligible}
use ninja_validator.Tasks.Qualification.{
  QualificationCandidate, QualificationOutcome, qualified, disqualified, needs_review,
  submission_status_for_outcome, set_submission_status, next_candidate, save_qualification,
  save_qualification_error,
}
use ninja_validator.Qualification.Policy.{
  SecurityQualificationResult, pass, risk_items, qualification_outcome,
}
use ninja_validator.Qualification.Policy.Outcomes.{AreHarmless, qualification_outcome_exact}
use ninja_validator.Qualification.Worker.{Answer, result, raised, run_once}

abbrev pub has_eligible_status : Submission → Bool
has_eligible_status s = is_eligible s.status_id

declined_rows :
    (id : String) (new : SubmissionStatus) (ss : List Submission)
    → is_eligible (some new) ≡ false
    → count_if has_eligible_status (set_submission_status id new ss).0
      ≤ count_if has_eligible_status ss
unfolding set_submission_status
declined_rows id new [] h = ground arith
declined_rows id new (s ∷ ss) h = ground (arith, declined_rows id new ss h)

module _ (fl : Floats) where
  abbrev pub eligible_count : Arena fl → ℕ
  eligible_count db = count_if has_eligible_status db.submissions

  declined_count :
      (id : String) (o : QualificationOutcome) (available : Bool) (db : Arena fl)
      → is_eligible (some (submission_status_for_outcome o)) ≡ false
      → eligible_count (save_qualification fl id o available db).0 ≤ eligible_count db
  unfolding save_qualification
  declined_count id o available db h =
      ground (arith, declined_rows id (submission_status_for_outcome o) db.submissions h)

  error_count :
      (id error : String) (available : Bool) (db : Arena fl)
      → eligible_count (save_qualification_error fl id error available db).0 ≤ eligible_count db
  unfolding save_qualification_error
  error_count id error available db = ground arith

  module _ (lower : List ℕ → List ℕ) (is_space : ℕ → Bool) where
    -- What the result for the candidate at the head of the queue was.
    abbrev pub IsCleared :
        (String → String → Bool) → ℕ → (QualificationCandidate → Answer) → Arena fl → Type 0
    IsCleared text_le window_size answer db =
        (c : QualificationCandidate) × (next_candidate fl text_le window_size db ≡ some c)
        × (r : SecurityQualificationResult) × (answer c ≡ result r)
        × (r.verdict ≡ pass)
        × AreHarmless lower is_space (risk_items r)

    qualified_of :
        (id : String) (o : QualificationOutcome) (available : Bool) (db : Arena fl)
        → eligible_count db < eligible_count (save_qualification fl id o available db).0
        → o ≡ qualified
    qualified_of id qualified available db more = refl
    qualified_of id disqualified available db more =
        absurd (ground (arith, declined_count id disqualified available db refl))
    qualified_of id needs_review available db more =
        absurd (ground (arith, declined_count id needs_review available db refl))

    -- Where a poll leaves more eligible submissions than there were, the head of the queue got a result whose verdict is pass and
    -- which reports no item of a category that disqualifies.
    pub run_once-IsCleared :
        (text_le : String → String → Bool) (window_size : ℕ)
        (answer : QualificationCandidate → Answer) (available : Bool) (db : Arena fl)
        → eligible_count db
          < eligible_count (run_once fl lower is_space text_le window_size answer available db).0
        → IsCleared text_le window_size answer db
    unfolding run_once
    run_once-IsCleared text_le window_size answer available db more =
        elim (next_candidate fl text_le window_size db)
            as (λ o.
              next_candidate fl text_le window_size db ≡ o
              → IsCleared text_le window_size answer db) [
                | none ↦ λ e. absurd (ground arith)
                | some c ↦ λ e.
                    elim (answer c)
                        as (λ a. answer c ≡ a → IsCleared text_le window_size answer db) [
                          | raised error ↦ λ a.
                              absurd
                                (ground (arith, error_count c.submission_id error available db))
                          | result r ↦ λ a.
                              let o = qualification_outcome lower is_space r in
                              let grown : eligible_count db
                                  < eligible_count
                                      (save_qualification fl c.submission_id o available db).0 =
                                ground arith in
                              let good = qualified_of c.submission_id o available db grown in
                              let (v, h) =
                                (qualification_outcome_exact lower is_space r).0.0 good in
                              (c, e, r, a, v, h)
                        ]
                      refl
              ]
          refl
