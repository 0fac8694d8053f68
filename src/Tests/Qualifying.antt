-- ===== src/Tests/Qualifying.antt =====
-- Two submissions that wait for their qualification.
use ninja_validator.Base.{
  ℕ, ◌<◌, ◌≡◌, ◌↔◌, refl, String, String-discrete, string_key, ◌==◌, eqb, if◌then◌else◌, Bool, true,
  false, none, some, List, [], ◌∷◌, arith,
}
use native.Mathlib.Decide.{ℕ_discrete}
use ninja_validator.Arena.Tables.{Arena, Submission, SubmissionStatus}
use ninja_validator.Arena.Queries.{place}
use ninja_validator.Tasks.Qualification.{
  QualificationCandidate, disqualified, needs_review, qualified, next_candidate, save_qualification,
}
use ninja_validator.Qualification.Policy.{
  SecurityQualificationResult, pass, warn, missing, text, labelled, plain, risk_items,
  qualification_outcome,
}
use ninja_validator.Qualification.Policy.Outcomes.{AreHarmless, qualification_outcome_exact}
use ninja_validator.Qualification.Worker.{Answer, result, raised, Poll, run_once, poll_repeatedly}
use ninja_validator.Qualification.Worker.Head.{poll_repeatedly-starves}
use ninja_validator.Qualification.Worker.Cleared.{eligible_count}
use ninja_validator.Qualification.Parse.{
  Jsons, whole, refused, parsed, parse_security_qualification,
}
use ninja_validator.Qualification.Parse.Sound.{IsRead, parse_security_qualification-IsRead}
use ninja_validator.Qualification.Client.{Completion, completed, qualify_submission_security}
use ninja_validator.Qualification.Client.Passed.{IsPassed, run_once-IsPassed}
use ninja_validator.Base.Texts.{codes, same_codes, starts_with}
use ninja_validator.Tests.{hundredths, arena}

abbrev same : List ℕ → List ℕ
same cs = cs

abbrev is_blank : ℕ → Bool
is_blank c = eqb c b' '

abbrev first_le : String → String → Bool
first_le a b = a == b

abbrev submitted : String → ℕ → Submission
submitted id block = record {
  submission_id = id;
  hotkey = "hot";
  block = block;
  status_id = some SubmissionStatus.unverified;
}

abbrev two_waiting : Arena hundredths
two_waiting = record arena { submissions = submitted "e" 9 ∷ submitted "d" 8 ∷ [] }

abbrev head : QualificationCandidate
head = record { submission_id = "d"; hotkey = "hot"; block = 8 }

abbrev harmless : SecurityQualificationResult
harmless = record {
  verdict = pass;
  overall_score = 90;
  security_score = 95;
  risks = [];
  payload_risks = some (plain "style: long lines" ∷ []);
}

-- The category is an alias, spelled with blanks.
abbrev escape : SecurityQualificationResult
escape = record {
  verdict = warn;
  overall_score = 90;
  security_score = 95;
  risks = [];
  payload_risks = some (labelled (text "") (text " host escape ") missing missing ∷ []);
}

qualify_harmless : qualification_outcome same is_blank harmless ≡ qualified
unfolding qualification_outcome
qualify_harmless = refl

disqualify_escape : qualification_outcome same is_blank escape ≡ disqualified
unfolding qualification_outcome
disqualify_escape = refl

-- The risk of the result itself, where the payload has no list: the label ends at the dash.
disqualify_label :
    qualification_outcome same is_blank record {
      verdict = pass;
      overall_score = 90;
      security_score = 95;
      risks = "c2 -- beacons" ∷ [];
      payload_risks = none;
    }
    ≡ disqualified
unfolding qualification_outcome
disqualify_label = refl

qualification_outcome_exact_example :
    ((qualification_outcome same is_blank escape ≡ qualified)
      ↔ ((escape.verdict ≡ pass) × AreHarmless same is_blank (risk_items escape)))
    × ((qualification_outcome same is_blank escape ≡ needs_review)
        ↔ ((escape.verdict ≡ warn) × AreHarmless same is_blank (risk_items escape)))
qualification_outcome_exact_example = qualification_outcome_exact same is_blank escape

abbrev bundle_missing : QualificationCandidate → Answer
bundle_missing c =
    if c.submission_id == "d" then raised "submission bundle is missing" else result harmless

head_of_waiting : next_candidate hundredths first_le 5 two_waiting ≡ some head
unfolding next_candidate place String-discrete ℕ_discrete
head_of_waiting = refl

-- The values of one reply: it is the object that `{}` stands for.
data ReplyValue : Type 0 where
  null reply : ReplyValue
  number : ℕ → ReplyValue
  word : String → ReplyValue
  listed : ReplyValue

abbrev reply_field : String → ReplyValue
reply_field name =
    if name == "verdict"
    then word " pass "
    else (if name == "overall_score"
        then number 400
        else (if name == "risks" then listed else null))

abbrev word_of : ReplyValue → String
word_of (word s) = s
word_of _ = ""

abbrev replies : Jsons
replies = record {
  Value = ReplyValue;
  loads = λ raw. if same_codes raw (codes "{}") then some reply else none;
  is_object = λ v. elim v [ reply ↦ true | _ ↦ false ];
  field = λ name v. reply_field name;
  is_truthy = λ v. elim v [ null ↦ false | _ ↦ true ];
  to_codes = λ v. codes (word_of v);
  to_text = word_of;
  as_text = λ v. elim v [ word s ↦ some s | _ ↦ none ];
  items = λ v. elim v [ listed ↦ some (word "style: long lines" ∷ []) | _ ↦ none ];
  to_int = λ v. elim v [ number n ↦ whole n | _ ↦ refused ];
}

abbrev fenced_reply : List ℕ
fenced_reply = codes "```json {}```"

abbrev read_reply : SecurityQualificationResult
read_reply = record {
  verdict = pass;
  overall_score = 100;
  security_score = 0;
  risks = "style: long lines" ∷ [];
  payload_risks = some (plain "style: long lines" ∷ []);
}

parse_reply :
    parse_security_qualification replies same is_blank same fenced_reply ≡ parsed read_reply
unfolding parse_security_qualification same_codes starts_with String-discrete
parse_reply = refl

parse_security_qualification-IsRead_example :
    IsRead replies same is_blank same fenced_reply read_reply
parse_security_qualification-IsRead_example =
    parse_security_qualification-IsRead replies same is_blank same fenced_reply read_reply
      parse_reply

abbrev complete_all : QualificationCandidate → Completion
complete_all c = completed fenced_reply

one_eligible_more :
    eligible_count hundredths two_waiting
    < eligible_count hundredths
        (run_once hundredths same is_blank first_le 5
          (λ c. qualify_submission_security replies same is_blank same (complete_all c))
          true
          two_waiting).0
unfolding run_once qualify_submission_security qualification_outcome next_candidate place
    save_qualification same_codes starts_with String-discrete ℕ_discrete
one_eligible_more = omega arith

run_once-IsPassed_example :
    IsPassed replies same is_blank same hundredths first_le 5 complete_all two_waiting
run_once-IsPassed_example =
    run_once-IsPassed replies same is_blank same hundredths first_le 5 complete_all true two_waiting
      one_eligible_more

abbrev three_polls : List Poll
three_polls = (bundle_missing, true) ∷ (bundle_missing, false) ∷ (bundle_missing, true) ∷ []

head_raises : bundle_missing head ≡ raised "submission bundle is missing"
unfolding String-discrete
head_raises = refl

poll_repeatedly-starves_example :
    (next_candidate hundredths first_le 5
        (poll_repeatedly hundredths same is_blank first_le 5 three_polls two_waiting)
      ≡ some head)
    × ((poll_repeatedly hundredths same is_blank first_le 5 three_polls two_waiting).submissions
        ≡ two_waiting.submissions)
poll_repeatedly-starves_example =
    poll_repeatedly-starves hundredths same is_blank first_le 5 head three_polls two_waiting
      head_of_waiting
      (
        ("submission bundle is missing", head_raises),
        (
          ("submission bundle is missing", head_raises),
          (("submission bundle is missing", head_raises), tt),
        ),
      )
