-- ===== src/Tasks/Rows.antt =====
-- Rows of the tables `tasks` and `task_screenings` by their primary key, the task's id, which no two
-- rows share: the row is the first one with it.
use ninja_validator.Base.{
  ◌+◌, ◌≡◌, String, Bool, true, false, Option, none, some, List, [], ◌∷◌, arith, ◌&&◌, ◌==◌,
  string_key, count_if, if◌then◌else◌,
}
use ninja_validator.Floats.{Floats}
use ninja_validator.Duel.Snapshot.{PoolType}
use ninja_validator.Arena.Tables.{Task, TaskStatus, TaskScreening}
use ninja_validator.Arena.Queries.{is_ready_task, is_qualified, same_pool}

unfoldable pub task_of : String → List Task → Option Task
task_of id [] = none
task_of id (t ∷ ts) = let rest = task_of id ts in if t.task_id == id then some t else rest

-- `task.status_id = …`
unfoldable pub set_task_status : String → TaskStatus → List Task → List Task
set_task_status id status [] = []
set_task_status id status (t ∷ ts) =
    let rest = set_task_status id status ts in
    if t.task_id == id then record t { status_id = status } ∷ ts else t ∷ rest

abbrev pub is_candidate : TaskStatus → Bool
is_candidate TaskStatus.candidate = true
is_candidate _ = false

abbrev pub is_pending_screen : TaskStatus → Bool
is_pending_screen TaskStatus.pending_screen = true
is_pending_screen _ = false

module _ (fl : Floats) where
  unfoldable pub screening_of : String → List (TaskScreening fl) → Option (TaskScreening fl)
  screening_of id [] = none
  screening_of id (s ∷ ss) =
      let rest = screening_of id ss in if s.task_id == id then some s else rest

  -- The row `s` is written back.
  unfoldable pub save_screening :
      TaskScreening fl → List (TaskScreening fl) → List (TaskScreening fl)
  save_screening s [] = []
  save_screening s (x ∷ xs) =
      let rest = save_screening s xs in if x.task_id == s.task_id then s ∷ xs else x ∷ rest

-- One more task is ready in a pool just when the row was in it and was not ready.
pub count-set_task_status :
    (king : String) (pool : PoolType) (id : String) (t : Task) (ts : List Task)
    → task_of id ts ≡ some t
    → is_qualified t.status_id ≡ false
    → count_if (is_ready_task king pool) (set_task_status id TaskStatus.qualified ts)
      ≡ count_if (is_ready_task king pool) ts
        + (if t.king_id == king && same_pool t.pool_type pool then 1 else 0)
unfolding task_of set_task_status
count-set_task_status king pool id t [] h q = absurd (ground arith)
count-set_task_status king pool id t (x ∷ xs) h q =
    ground (arith, count-set_task_status king pool id t xs)

pub task_of-set_task_status :
    (id : String) (status : TaskStatus) (t : Task) (ts : List Task)
    → task_of id ts ≡ some t
    → task_of id (set_task_status id status ts) ≡ some (record t { status_id = status })
unfolding task_of set_task_status
task_of-set_task_status id status t [] h = absurd (ground arith)
task_of-set_task_status id status t (x ∷ xs) h =
    ground (arith, task_of-set_task_status id status t xs)

pub task_id-task_of :
    (id : String) (t : Task) (ts : List Task) → task_of id ts ≡ some t → t.task_id ≡ id
unfolding task_of
task_id-task_of id t [] h = absurd (ground arith)
task_id-task_of id t (x ∷ xs) h = ground (arith, task_id-task_of id t xs)

pub screening_id-screening_of :
    (fl : Floats) (id : String) (s : TaskScreening fl) (ss : List (TaskScreening fl))
    → screening_of fl id ss ≡ some s
    → s.task_id ≡ id
unfolding screening_of
screening_id-screening_of fl id s [] h = absurd (ground arith)
screening_id-screening_of fl id s (x ∷ xs) h = ground (arith, screening_id-screening_of fl id s xs)

pub screening_of-save_screening :
    (fl : Floats) (id : String) (s s' : TaskScreening fl) (ss : List (TaskScreening fl))
    → screening_of fl id ss ≡ some s
    → s'.task_id ≡ id
    → screening_of fl id (save_screening fl s' ss) ≡ some s'
unfolding screening_of save_screening
screening_of-save_screening fl id s s' [] h e = absurd (ground arith)
screening_of-save_screening fl id s s' (x ∷ xs) h e =
    ground (arith, screening_of-save_screening fl id s s' xs)
