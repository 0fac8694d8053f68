-- ===== src/Tasks/Qualification.antt =====
-- tau/db/qualification.py: the submissions that wait for their qualification, and its writes. `text_le`
-- is the order of the database's texts.
pub mod Final
use ninja_validator.Base.{
  ℕ, String, Bool, true, false, not, ◌&&◌, ◌||◌, Option, none, some, List, [], ◌∷◌, ◌++◌, ltb, leb,
  eqb, ◌==◌, string_key, contains, take, sort_by, if◌then◌else◌,
}
use ninja_validator.Floats.{Floats}
use ninja_validator.Arena.Tables.{
  Arena, King, Challenge, Registration, Submission, SubmissionStatus, SubmissionQualification,
}
use ninja_validator.Arena.Queries.{current_metagraph, king_ids, challenger_ids, is_eligible}

pub record QualificationCandidate : Type 0 where
  pub submission_id : String
  pub hotkey : String
  pub block : ℕ

pub data QualificationOutcome : Type 0 where
  qualified disqualified needs_review : QualificationOutcome

-- `outcome.value`
abbrev pub outcome_value : QualificationOutcome → String
outcome_value QualificationOutcome.qualified = "qualified"
outcome_value QualificationOutcome.disqualified = "disqualified"
outcome_value QualificationOutcome.needs_review = "needs_review"

-- `_submission_status_for_outcome`
abbrev pub submission_status_for_outcome : QualificationOutcome → SubmissionStatus
submission_status_for_outcome QualificationOutcome.qualified = SubmissionStatus.eligible
submission_status_for_outcome QualificationOutcome.disqualified = SubmissionStatus.disqualified
submission_status_for_outcome QualificationOutcome.needs_review = SubmissionStatus.needs_review

abbrev pub is_unverified : Option SubmissionStatus → Bool
is_unverified (some SubmissionStatus.unverified) = true
is_unverified _ = false

-- The `where` of the queue's head, less the test on the joined row.
unfoldable pub is_live : List King → List Challenge → Submission → Bool
is_live kings challenges s =
    (is_unverified s.status_id || is_eligible s.status_id)
    && (not (contains s.submission_id (king_ids kings))
        && not (contains s.submission_id (challenger_ids challenges)))

-- The rows of the join for one submission: one for each current registration of its hotkey that is no later.
unfoldable pub joined_rows : List Registration → Submission → List Submission
joined_rows [] s = []
joined_rows (m ∷ ms) s =
    let rest = joined_rows ms s in
    if m.ss58_hot == s.hotkey && leb m.block s.block then s ∷ rest else rest

-- The rows of the queue.
unfoldable pub live_rows :
    List Registration → List King → List Challenge → List Submission → List Submission
unfolding is_live joined_rows
live_rows meta kings challenges [] = []
live_rows meta kings challenges (s ∷ ss) =
    let rest = live_rows meta kings challenges ss in
    if is_live kings challenges s then joined_rows meta s ++ rest else rest

-- `order by block, submission_id`
unfoldable pub block_before : (String → String → Bool) → Submission → Submission → Bool
block_before text_le a b =
    ltb a.block b.block || (eqb a.block b.block && text_le a.submission_id b.submission_id)

-- The first row that is UNVERIFIED.
unfoldable pub first_unverified : List Submission → Option QualificationCandidate
first_unverified [] = none
first_unverified (s ∷ ss) =
    let rest = first_unverified ss in
    if is_unverified s.status_id
    then some record { submission_id = s.submission_id; hotkey = s.hotkey; block = s.block }
    else rest

-- The `where` of the update.
abbrev pub is_unverified_row : String → Submission → Bool
is_unverified_row id s = s.submission_id == id && is_unverified s.status_id

-- The guarded update: the rows, and whether one of them fitted.
unfoldable pub set_submission_status :
    String → SubmissionStatus → List Submission → List Submission × Bool
set_submission_status id new [] = ([], false)
set_submission_status id new (s ∷ ss) =
    let (ss', changed) = set_submission_status id new ss in
    if is_unverified_row id s
    then (record s { status_id = some new } ∷ ss', true)
    else (s ∷ ss', changed)

-- `_upsert_qualification`
unfoldable pub upsert_qualification :
    SubmissionQualification → List SubmissionQualification → List SubmissionQualification
upsert_qualification q [] = q ∷ []
upsert_qualification q (x ∷ xs) =
    let rest = upsert_qualification q xs in
    if x.submission_id == q.submission_id then q ∷ xs else x ∷ rest

unfoldable pub has_unverified : String → List Submission → Bool
has_unverified id [] = false
has_unverified id (s ∷ ss) = is_unverified_row id s || has_unverified id ss

module _ (fl : Floats) where
  unfoldable pub next_candidate :
      (String → String → Bool) → ℕ → Arena fl → Option QualificationCandidate
  unfolding live_rows block_before first_unverified current_metagraph
  next_candidate text_le window_size db =
      let live =
        live_rows (current_metagraph db.registrations) db.kings db.challenges db.submissions in
      if leb window_size 0
      then none
      else first_unverified (take window_size (sort_by (block_before text_le) live))

  -- The qualification's scores and texts, which no worker reads, are left out.
  unfoldable pub save_qualification :
      String → QualificationOutcome → Bool → Arena fl → Arena fl × Bool
  unfolding set_submission_status upsert_qualification
  save_qualification id outcome base_files_available db =
      let (ss, changed) =
        set_submission_status id (submission_status_for_outcome outcome) db.submissions in
      let row : SubmissionQualification = record {
        submission_id = id;
        outcome = outcome_value outcome;
        base_files_available = base_files_available;
        error = none;
      } in
      if not changed then (db, false) else (
        record db { submissions = ss; qualifications = upsert_qualification row db.qualifications },
        true,
      )

  unfoldable pub save_qualification_error : String → String → Bool → Arena fl → Arena fl × Bool
  unfolding has_unverified upsert_qualification
  save_qualification_error id error base_files_available db =
      let row : SubmissionQualification = record {
        submission_id = id;
        outcome = "error";
        base_files_available = base_files_available;
        error = some error;
      } in
      if has_unverified id db.submissions
      then (record db { qualifications = upsert_qualification row db.qualifications }, true)
      else (db, false)
