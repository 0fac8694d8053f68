-- ===== src/Tasks/Screening.antt =====
-- tau/db/task_screening.py. A result `failed` stands for an exception, which rolls the transaction
-- back; instants and durations are naturals of one unit, and that a
-- `datetime` ends with the year 9999 is left out. Errors has the requests and the failed runs.
pub mod Errors
pub mod Backoff
use ninja_validator.Base.{
  ℕ, suc, ◌+◌, ◌-◌, ◌*◌, ◌^◌, min, String, Bool, true, false, not, ◌&&◌, ◌||◌, Option, none, some,
  List, [], ◌∷◌, ltb, leb, eqb, ◌==◌, string_key, keep, count_if, if◌then◌else◌,
}
use ninja_validator.Floats.{Floats}
use ninja_validator.Duel.Snapshot.{PoolType}
use ninja_validator.Arena.Tables.{Arena, Task, TaskStatus, TaskScreening}
use ninja_validator.Arena.Queries.{PoolTargets, target, reigning_king, is_ready_task}
use ninja_validator.Tasks.Rows.{
  task_of, set_task_status, is_pending_screen, screening_of, save_screening,
}
use ninja_validator.Tasks.Generation.{is_active_task}

pub data FinalScreeningOutcome : Type 0 where
  qualified disqualified : FinalScreeningOutcome

pub record ScreeningDecisionSave : Type 0 where
  pub outcome : FinalScreeningOutcome
  pub reason : String
  pub surplus_disqualified : ℕ

-- What a transaction comes to: the value that it returns with the new tables, or an exception.
pub data Outcome (S A : Type 0) : Type 0 where
  returned : A → S → Outcome S A
  failed : Outcome S A

-- The tables after it.
abbrev pub tables_after : {S A : Type 0} → S → Outcome S A → S
tables_after s (Outcome.returned _ s') = s'
tables_after s Outcome.failed = s

abbrev pub names_king : Option String → String → Bool
names_king none king = false
names_king (some k) king = k == king

-- The tests on the row in `save_decision` and `_lock_pending_task`.
abbrev pub awaits_screen : String → Task → Bool
awaits_screen king t = t.king_id == king && is_pending_screen t.status_id

-- The new status of a surplus row.
unfoldable pub disqualify_tasks : String → PoolType → List Task → List Task
disqualify_tasks king pool [] = []
disqualify_tasks king pool (t ∷ ts) =
    let rest = disqualify_tasks king pool ts in
    if is_active_task king pool t
    then record t { status_id = TaskStatus.disqualified } ∷ rest
    else t ∷ rest

-- `task_id in surplus_ids`
unfoldable pub is_surplus : String → PoolType → String → List Task → Bool
is_surplus king pool id [] = false
is_surplus king pool id (t ∷ ts) =
    (t.task_id == id && is_active_task king pool t) || is_surplus king pool id ts

abbrev pub status_of : FinalScreeningOutcome → TaskStatus
status_of qualified = TaskStatus.qualified
status_of disqualified = TaskStatus.disqualified

-- The final outcome and reason, from the number of tasks that are qualified and the target.
abbrev pub final_of : FinalScreeningOutcome → String → ℕ → ℕ → FinalScreeningOutcome × String
final_of disqualified reason count most = (disqualified, reason)
final_of qualified reason count most =
    if leb most count then (disqualified, "pool_full_surplus") else (qualified, reason)

-- The last test, whether queued work is dropped.
abbrev pub fills_pool : FinalScreeningOutcome → ℕ → ℕ → Bool
fills_pool disqualified count most = false
fills_pool qualified count most = leb most count || eqb (count + 1) most

module _ (fl : Floats) where
  open fl use {Float, nought, unit, le}

  unfoldable pub drop_screenings :
      String → PoolType → List Task → List (TaskScreening fl) → List (TaskScreening fl)
  unfolding is_surplus
  drop_screenings king pool tasks [] = []
  drop_screenings king pool tasks (s ∷ ss) =
      let rest = drop_screenings king pool tasks ss in
      if is_surplus king pool s.task_id tasks
      then record s { reason = some "pool_full_surplus"; next_retry_at = none } ∷ rest
      else s ∷ rest

  -- `_disqualify_surplus`: the new tables and the number of tasks.
  unfoldable pub disqualify_surplus : String → PoolType → Arena fl → Arena fl × ℕ
  unfolding drop_screenings disqualify_tasks
  disqualify_surplus king pool db = (
    record db {
      tasks = disqualify_tasks king pool db.tasks;
      screenings = drop_screenings king pool db.tasks db.screenings;
    },
    count_if (is_active_task king pool) db.tasks,
  )

  abbrev pub score_accepted : Option Float → Bool
  score_accepted none = true
  score_accepted (some x) = le nought x && le x unit

  -- The row after the assignments.
  abbrev pub decided_row : Option Float → Float → String → TaskScreening fl → TaskScreening fl
  decided_row king_score max_score reason s = record s {
    king_score = king_score;
    max_score = some max_score;
    reason = some reason;
    next_retry_at = none;
  }

  -- The tables after them.
  unfoldable pub decided_tables : String → TaskStatus → TaskScreening fl → Arena fl → Arena fl
  unfolding set_task_status save_screening
  decided_tables id status row db = record db {
    tasks = set_task_status id status db.tasks;
    screenings = save_screening fl row db.screenings;
  }

  -- `save_decision` from the assignments to the row on.
  unfoldable pub decide_screening :
      Task
      → TaskScreening fl
      → FinalScreeningOutcome
      → Option Float
      → Float
      → String
      → PoolTargets
      → Arena fl
      → Outcome (Arena fl) (Option ScreeningDecisionSave)
  unfolding disqualify_surplus decided_tables
  decide_screening task screening outcome king_score max_score reason targets db =
      let count = count_if (is_ready_task task.king_id task.pool_type) db.tasks in
      let most = target targets task.pool_type in
      let (final, final_reason) = final_of outcome reason count most in
      let db' =
        decided_tables task.task_id (status_of final)
          (decided_row king_score max_score final_reason screening) db in
      let (dropped, surplus) = disqualify_surplus task.king_id task.pool_type db' in
      if fills_pool outcome count most
      then Outcome.returned
          (some record { outcome = final; reason = final_reason; surplus_disqualified = surplus })
          dropped
      else Outcome.returned
          (some record { outcome = final; reason = final_reason; surplus_disqualified = 0 }) db'

  -- The pending task of the reigning king with this id: the locked row of `save_decision`, and of
  -- `_lock_pending_task`.
  unfoldable pub lock_pending_task : String → String → Arena fl → Option Task
  unfolding task_of
  lock_pending_task id king db =
      if not (names_king (reigning_king db.kings) king) then none else elim (task_of id db.tasks) [
        | none ↦ none
        | some t ↦ if awaits_screen king t then some t else none
      ]

  -- A greatest score outside of the column's CHECK fails as the row is written.
  unfoldable pub save_decision :
      String
      → String
      → FinalScreeningOutcome
      → Option Float
      → Float
      → String
      → PoolTargets
      → Arena fl
      → Outcome (Arena fl) (Option ScreeningDecisionSave)
  unfolding lock_pending_task screening_of decide_screening
  save_decision id king outcome king_score max_score reason targets db =
      if not (score_accepted king_score)
      then Outcome.failed
      else elim (lock_pending_task id king db) [
        | none ↦ Outcome.returned none db
        | some task ↦ elim (screening_of fl id db.screenings) [
          | none ↦ Outcome.failed
          | some s ↦
              if score_accepted (some max_score)
              then decide_screening task s outcome king_score max_score reason targets db
              else Outcome.failed
        ]
      ]
