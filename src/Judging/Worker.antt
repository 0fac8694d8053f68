-- ===== src/Judging/Worker.antt =====
-- tau/workers/judge/pipeline.py: the poll loop. The judgments in flight are the entries of the dict, in
-- its order; a cancelled one stays until it is done.
pub mod Copies
pub mod Reconcile
use ninja_validator.Base.{
  ℕ, String, Bool, true, false, not, ◌&&◌, ◌||◌, Option, none, some, List, [], ◌∷◌, ◌++◌, map, leb,
  ◌==◌, string_key, length, if◌then◌else◌,
}
use ninja_validator.Tasks.Judgments.{JudgeRequest}

pub record JudgeKey : Type 0 where
  pub task_id : String
  pub king_submission_id : String
  pub challenger_submission_id : String

-- `_key`
abbrev pub key : JudgeRequest → JudgeKey
key r = record {
  task_id = r.task_id;
  king_submission_id = r.king_submission_id;
  challenger_submission_id = r.challenger_submission_id;
}

unfoldable pub same_judge_key : JudgeKey → JudgeKey → Bool
same_judge_key a b =
    a.task_id == b.task_id
    && (a.king_submission_id == b.king_submission_id
        && a.challenger_submission_id == b.challenger_submission_id)

-- `{_key(req): req for req in …}`: a later request with a key takes the place of an earlier one.
unfoldable pub put_valid : JudgeRequest → List JudgeRequest → List JudgeRequest
unfolding same_judge_key
put_valid r [] = r ∷ []
put_valid r (x ∷ xs) =
    let rest = put_valid r xs in if same_judge_key (key x) (key r) then r ∷ xs else x ∷ rest

unfoldable pub valid_from : List JudgeRequest → List JudgeRequest → List JudgeRequest
unfolding put_valid
valid_from valid [] = valid
valid_from valid (r ∷ rs) = valid_from (put_valid r valid) rs

unfoldable pub is_valid_key : JudgeKey → List JudgeRequest → Bool
unfolding same_judge_key
is_valid_key k [] = false
is_valid_key k (r ∷ rs) = same_judge_key k (key r) || is_valid_key k rs

-- A task in flight.
pub record Inflight : Type 0 where
  pub key : JudgeKey
  pub request : JudgeRequest
  pub cancelled : Bool

unfoldable pub is_inflight : JudgeKey → List Inflight → Bool
unfolding same_judge_key
is_inflight k [] = false
is_inflight k (x ∷ xs) = same_judge_key k x.key || is_inflight k xs

-- The first loop: what is no longer wanted is cancelled.
unfoldable pub cancel_obsolete : List JudgeRequest → List Inflight → List Inflight
unfolding is_valid_key
cancel_obsolete valid [] = []
cancel_obsolete valid (x ∷ xs) =
    (if is_valid_key x.key valid then x else record x { cancelled = true })
    ∷ cancel_obsolete valid xs

-- `_spawn`
abbrev pub spawn : JudgeRequest → Inflight
spawn r = record { key = key r; request = r; cancelled = false }

-- The second loop.
unfoldable pub start_wanted : ℕ → List JudgeRequest → List Inflight → List Inflight
unfolding is_inflight
start_wanted concurrency [] inflight = inflight
start_wanted concurrency (r ∷ rs) inflight =
    let skip = start_wanted concurrency rs inflight in
    let spawned = start_wanted concurrency rs (inflight ++ spawn r ∷ []) in
    if is_inflight (key r) inflight
    then skip
    else if leb concurrency (length inflight)
    then inflight
    else spawned

-- `_reconcile`, from the pending requests of the database.
unfoldable pub reconcile : ℕ → List JudgeRequest → List Inflight → List Inflight
unfolding valid_from cancel_obsolete start_wanted
reconcile concurrency requests inflight =
    let valid = valid_from [] requests in
    start_wanted concurrency valid (cancel_obsolete valid inflight)

-- `inflight.pop(key, None)` of `_on_judgment_done`
unfoldable pub judgment_done : JudgeKey → List Inflight → List Inflight
unfolding same_judge_key
judgment_done k [] = []
judgment_done k (x ∷ xs) =
    let rest = judgment_done k xs in if same_judge_key k x.key then xs else x ∷ rest
