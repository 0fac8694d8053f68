-- ===== src/Tasks/Invariant/Updates.antt =====
-- The rows that an id names after a write.
use ninja_validator.Base.{
  ◌≡◌, refl, String, Bool, ◌||◌, Option, none, some, List, [], ◌∷◌, ◌++◌, arith, ◌==◌, string_key,
  is_some, if◌then◌else◌,
}
use ninja_validator.Floats.{Floats}
use ninja_validator.Duel.Snapshot.{PoolType}
use ninja_validator.Arena.Tables.{Task, TaskStatus, TaskScreening}
use ninja_validator.Tasks.Rows.{task_of, set_task_status, screening_of, save_screening}
use ninja_validator.Tasks.Generation.{is_active_task}
use ninja_validator.Tasks.Screening.{disqualify_tasks, drop_screenings}

abbrev pub change : (Task → Bool) → TaskStatus → Option Task → Option Task
change p status none = none
change p status (some t) = some (if p t then record t { status_id = status } else t)

pub task_of-set :
    (i id : String) (status : TaskStatus) (ts : List Task)
    → task_of i (set_task_status id status ts) ≡ change (λ _. i == id) status (task_of i ts)
unfolding task_of set_task_status
task_of-set i id status [] = refl
task_of-set i id status (t ∷ ts) = ground (arith, task_of-set i id status ts)

pub task_of-disqualify :
    (i king : String) (pool : PoolType) (ts : List Task)
    → task_of i (disqualify_tasks king pool ts)
      ≡ change (is_active_task king pool) TaskStatus.disqualified (task_of i ts)
unfolding task_of disqualify_tasks
task_of-disqualify i king pool [] = refl
task_of-disqualify i king pool (t ∷ ts) = ground (arith, task_of-disqualify i king pool ts)

abbrev pub or_row : Option Task → String → Task → Option Task
or_row none i t = if t.task_id == i then some t else none
or_row (some x) i t = some x

pub task_of-append :
    (i : String) (t : Task) (ts : List Task) → task_of i (ts ++ t ∷ []) ≡ or_row (task_of i ts) i t
unfolding task_of
task_of-append i t [] = refl
task_of-append i t (x ∷ ts) = ground (arith, task_of-append i t ts)

module _ (fl : Floats) where
  pub screened-save :
      (i : String) (s : TaskScreening fl) (ss : List (TaskScreening fl))
      → is_some (screening_of fl i (save_screening fl s ss)) ≡ is_some (screening_of fl i ss)
  unfolding screening_of save_screening
  screened-save i s [] = refl
  screened-save i s (x ∷ ss) = ground (arith, screened-save i s ss)

  pub screened-append :
      (i : String) (s : TaskScreening fl) (ss : List (TaskScreening fl))
      → is_some (screening_of fl i (ss ++ s ∷ []))
        ≡ is_some (screening_of fl i ss) || s.task_id == i
  unfolding screening_of
  screened-append i s [] = ground arith
  screened-append i s (x ∷ ss) = ground (arith, screened-append i s ss)

  pub screened-drop :
      (i king : String) (pool : PoolType) (ts : List Task) (ss : List (TaskScreening fl))
      → is_some (screening_of fl i (drop_screenings fl king pool ts ss))
        ≡ is_some (screening_of fl i ss)
  unfolding screening_of drop_screenings
  screened-drop i king pool ts [] = refl
  screened-drop i king pool ts (x ∷ ss) = ground (arith, screened-drop i king pool ts ss)
