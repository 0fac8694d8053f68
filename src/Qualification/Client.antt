-- ===== src/Qualification/Client.antt =====
-- tau/qualification/security_qualification.py: the client's completion as the answer for a candidate. What the files
-- and the client come to is a parameter: a text, or an exception by its own text.
pub mod Passed
use ninja_validator.Base.{ℕ, String, Bool, List}
use ninja_validator.Qualification.Parse.{
  Jsons, parsed, no_object, overflowed, parse_security_qualification,
}
use ninja_validator.Qualification.Worker.{Answer, result, raised}

pub data Completion : Type 0 where
  completed : List ℕ → Completion
  failed : String → Completion

module _ (js : Jsons) (lower : List ℕ → List ℕ) (is_space : ℕ → Bool)
    (dedent : List ℕ → List ℕ) where
  unfoldable pub qualify_submission_security : Completion → Answer
  unfolding parse_security_qualification
  qualify_submission_security (failed error) = raised error
  qualify_submission_security (completed raw) =
      elim (parse_security_qualification js lower is_space dedent raw) [
        | parsed r ↦ result r
        | no_object ↦ raised "security qualification did not return a JSON object"
        | overflowed ↦ raised "cannot convert float infinity to integer"
      ]
