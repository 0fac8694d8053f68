-- ===== src/Qualification/Worker.antt =====
-- tau/workers/qualification/loop.py: one poll of the worker. What the files of the candidate and the client come to is a
-- parameter: the result, or an exception by its text.
pub mod Cleared
pub mod Head
use ninja_validator.Base.{ℕ, String, Bool, true, false, Option, none, some, List, [], ◌∷◌}
use ninja_validator.Floats.{Floats}
use ninja_validator.Arena.Tables.{Arena}
use ninja_validator.Tasks.Qualification.{
  QualificationCandidate, QualificationOutcome, next_candidate, save_qualification,
  save_qualification_error,
}
use ninja_validator.Qualification.Policy.{SecurityQualificationResult, qualification_outcome}

-- How the qualification of a candidate ends.
pub data Answer : Type 0 where
  result : SecurityQualificationResult → Answer
  raised : String → Answer

-- What one poll meets: the answers, and whether the base files were read.
abbrev pub Poll : Type 0
Poll = (QualificationCandidate → Answer) × Bool

module _ (fl : Floats) (lower : List ℕ → List ℕ) (is_space : ℕ → Bool) where
  -- The new tables, and whether work was attempted.
  unfoldable pub run_once :
      (String → String → Bool)
      → ℕ
      → (QualificationCandidate → Answer)
      → Bool
      → Arena fl
      → Arena fl × Bool
  run_once text_le window_size answer base_files_available db =
      elim (next_candidate fl text_le window_size db) [
        | none ↦ (db, false)
        | some candidate ↦ elim (answer candidate) [
          | raised error ↦ (
            (save_qualification_error fl candidate.submission_id error base_files_available db).0,
            true,
          )
          | result r ↦ (
            (save_qualification fl candidate.submission_id (qualification_outcome lower is_space r)
                base_files_available db).0,
            true,
          )
        ]
      ]

  -- `run`, without other writes between the polls.
  unfoldable pub poll_repeatedly : (String → String → Bool) → ℕ → List Poll → Arena fl → Arena fl
  unfolding run_once
  poll_repeatedly text_le window_size [] db = db
  poll_repeatedly text_le window_size ((answer, available) ∷ polls) db =
      poll_repeatedly text_le window_size polls (run_once text_le window_size answer available db).0
