-- ===== src/Arena/Queries.antt =====
-- tau/db/duel_resolver.py: the reads on kings, challenges, submissions and registrations. Where a
-- query has `limit 1` and several rows fit, the model takes the first in the table's order.
pub mod Eligible
use ninja_validator.Base.{
  ℕ, String, Bool, true, false, not, ◌&&◌, Option, none, some, List, [], ◌∷◌, map, ltb, leb, ◌==◌,
  string_key, nat_key, contains, keep, count_if, if◌then◌else◌,
}
use ninja_validator.Duel.Snapshot.{PoolType, pool_one, pool_two}
use ninja_validator.Arena.Tables.{
  King, Challenge, ChallengeStatus, Submission, SubmissionStatus, Registration, Task, TaskStatus,
}

-- tau/pools.py
pub record PoolTargets : Type 0 where
  pub pool_one : ℕ
  pub pool_two : ℕ

-- `PoolTargets.target`
abbrev pub target : PoolTargets → PoolType → ℕ
target t pool_one = t.pool_one
target t pool_two = t.pool_two

-- `__post_init__`: whether the targets are accepted
abbrev pub targets_accepted : PoolTargets → Bool
targets_accepted t = leb 1 t.pool_one && leb 1 t.pool_two

-- `order by king_from desc limit 1`
unfoldable pub latest_king : List King → Option King
latest_king [] = none
latest_king (k ∷ ks) = elim (latest_king ks) [
  | none ↦ some k
  | some best ↦ if ltb k.king_from best.king_from then some best else some k
]

-- `_reigning_king`
unfoldable pub reigning_king : List King → Option String
reigning_king ks = elim (latest_king ks) [ none ↦ none | some k ↦ some k.king_id ]

-- The pool of a status of `_ACTIVE_STATUSES`, and none for `CLOSED`.
abbrev pub active_pool : ChallengeStatus → Option PoolType
active_pool ChallengeStatus.closed = none
active_pool ChallengeStatus.pool_one = some pool_one
active_pool ChallengeStatus.pool_two = some pool_two

-- The row of `_active_challenge`: the challenger and the pool.
unfoldable pub active_row : String → List Challenge → Option (String × PoolType)
active_row king [] = none
active_row king (c ∷ cs) =
    let rest = active_row king cs in
    if c.king_id == king
    then elim (active_pool c.status) [ none ↦ rest | some p ↦ some (c.challenger_submission_id, p) ]
    else rest

-- One more registration for `distinct on (uid) … order by uid, block desc`.
unfoldable pub place : Registration → List Registration → List Registration
place r [] = r ∷ []
place r (x ∷ xs) =
    if r.uid == x.uid then (if ltb r.block x.block then x else r) ∷ xs else x ∷ place r xs

-- `_current_metagraph`
unfoldable pub current_metagraph : List Registration → List Registration
current_metagraph [] = []
current_metagraph (r ∷ rs) = place r (current_metagraph rs)

-- The join on the hotkey with `meta.block <= submission.block`: some row of it fits.
unfoldable pub on_current_registration : List Registration → Submission → Bool
on_current_registration [] s = false
on_current_registration (m ∷ ms) s =
    let rest = on_current_registration ms s in
    if m.ss58_hot == s.hotkey && leb m.block s.block then true else rest

-- `_challenger_registered`
unfoldable pub challenger_registered : List Registration → List Submission → String → Bool
challenger_registered meta [] challenger = false
challenger_registered meta (s ∷ ss) challenger =
    let rest = challenger_registered meta ss challenger in
    if s.submission_id == challenger && on_current_registration meta s then true else rest

abbrev pub is_eligible : Option SubmissionStatus → Bool
is_eligible (some SubmissionStatus.eligible) = true
is_eligible _ = false

abbrev pub king_ids : List King → List String
king_ids [] = []
king_ids (k ∷ ks) = k.king_id ∷ king_ids ks

abbrev pub challenger_ids : List Challenge → List String
challenger_ids [] = []
challenger_ids (c ∷ cs) = c.challenger_submission_id ∷ challenger_ids cs

-- The `where` of `_next_challenger`.
unfoldable pub can_challenge : List Registration → List King → List Challenge → Submission → Bool
unfolding on_current_registration
can_challenge meta kings challenges s =
    (is_eligible s.status_id && on_current_registration meta s)
    && (not (contains s.submission_id (king_ids kings))
        && not (contains s.submission_id (challenger_ids challenges)))

-- `order by block limit 1`
unfoldable pub oldest : List Submission → Option Submission
oldest [] = none
oldest (s ∷ ss) = elim (oldest ss) [
  | none ↦ some s
  | some best ↦ if ltb best.block s.block then some best else some s
]

-- `_next_challenger`
unfoldable pub next_challenger :
    List Registration → List King → List Challenge → List Submission → Option String
next_challenger meta kings challenges submissions =
    elim (oldest (keep (can_challenge meta kings challenges) submissions)) [
      | none ↦ none
      | some s ↦ some s.submission_id
    ]

abbrev pub is_qualified : TaskStatus → Bool
is_qualified TaskStatus.qualified = true
is_qualified _ = false

abbrev pub same_pool : PoolType → PoolType → Bool
same_pool pool_one pool_one = true
same_pool pool_two pool_two = true
same_pool _ _ = false

-- The rows that `_task_pools_ready` counts for one pool.
abbrev pub is_ready_task : String → PoolType → Task → Bool
is_ready_task king pool t =
    t.king_id == king && (is_qualified t.status_id && same_pool t.pool_type pool)

-- `_task_pools_ready`
unfoldable pub task_pools_ready : String → PoolTargets → List Task → Bool
task_pools_ready king targets tasks =
    leb targets.pool_one (count_if (is_ready_task king pool_one) tasks)
    && leb targets.pool_two (count_if (is_ready_task king pool_two) tasks)
