-- ===== src/Tasks/Invariant/Counts.antt =====
-- The number of qualified tasks of a pool after a write.
use ninja_validator.Base.{◌≤◌, ◌≡◌, refl, String, false, List, [], ◌∷◌, ◌++◌, arith, count_if}
use ninja_validator.Duel.Snapshot.{PoolType}
use ninja_validator.Arena.Tables.{Task, TaskStatus}
use ninja_validator.Arena.Queries.{is_ready_task, is_qualified}
use ninja_validator.Tasks.Rows.{set_task_status}
use ninja_validator.Tasks.Screening.{disqualify_tasks}

pub count-append :
    (king : String) (pool : PoolType) (t : Task) (ts : List Task)
    → is_qualified t.status_id ≡ false
    → count_if (is_ready_task king pool) (ts ++ t ∷ []) ≡ count_if (is_ready_task king pool) ts
count-append king pool t [] h = ground arith
count-append king pool t (x ∷ ts) h = ground (arith, count-append king pool t ts h)

pub count-set :
    (king : String) (pool : PoolType) (id : String) (status : TaskStatus) (ts : List Task)
    → is_qualified status ≡ false
    → count_if (is_ready_task king pool) (set_task_status id status ts)
      ≤ count_if (is_ready_task king pool) ts
unfolding set_task_status
count-set king pool id status [] h = ground arith
count-set king pool id status (x ∷ ts) h = ground (arith, count-set king pool id status ts h)

pub count-disqualify :
    (king : String) (pool : PoolType) (king' : String) (pool' : PoolType) (ts : List Task)
    → count_if (is_ready_task king pool) (disqualify_tasks king' pool' ts)
      ≡ count_if (is_ready_task king pool) ts
unfolding disqualify_tasks
count-disqualify king pool king' pool' [] = refl
count-disqualify king pool king' pool' (x ∷ ts) =
    ground (arith, count-disqualify king pool king' pool' ts)
