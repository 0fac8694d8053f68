-- ===== src/Tasks/Qualification/Final.antt =====
-- A final qualification is saved once.
use ninja_validator.Base.{◌≡◌, refl, String, Bool, false, List, [], ◌∷◌, arith, string_key}
use ninja_validator.Floats.{Floats}
use ninja_validator.Arena.Tables.{Arena, Submission, SubmissionStatus}
use ninja_validator.Tasks.Qualification.{
  QualificationOutcome, submission_status_for_outcome, set_submission_status, has_unverified,
  save_qualification,
}

set_submission_status-has_unverified :
    (id : String) (o : QualificationOutcome) (ss : List Submission)
    → has_unverified id (set_submission_status id (submission_status_for_outcome o) ss).0 ≡ false
unfolding has_unverified set_submission_status
set_submission_status-has_unverified id o [] = refl
set_submission_status-has_unverified id o (s ∷ ss) =
    ground (arith, set_submission_status-has_unverified id o ss)

changed-has_unverified :
    (id : String) (new : SubmissionStatus) (ss : List Submission)
    → (set_submission_status id new ss).1 ≡ has_unverified id ss
unfolding has_unverified set_submission_status
changed-has_unverified id new [] = refl
changed-has_unverified id new (s ∷ ss) = ground (arith, changed-has_unverified id new ss)

module _ (fl : Floats) where
  -- After a call that saves a qualification, or finds nothing to save, no later call for the submission
  -- saves one.
  pub save_qualification-final :
      (id : String) (o o' : QualificationOutcome) (f f' : Bool) (db : Arena fl)
      → (save_qualification fl id o' f' (save_qualification fl id o f db).0).1 ≡ false
  unfolding save_qualification
  save_qualification-final id o o' f f' db =
      let new = submission_status_for_outcome o in
      let new' = submission_status_for_outcome o' in
      ground (
        arith,
        set_submission_status-has_unverified id o db.submissions,
        changed-has_unverified id new db.submissions,
        changed-has_unverified id new' db.submissions,
        changed-has_unverified id new' (set_submission_status id new db.submissions).0,
      )
