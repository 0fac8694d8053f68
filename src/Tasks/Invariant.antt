-- ===== src/Tasks/Invariant.antt =====
-- What the workers keep of the tables of tasks and screenings.
pub mod Updates
pub mod Counts
pub mod Keeps
pub mod Decision
pub mod Raises
use ninja_validator.Base.{
  ℕ, ◌≤◌, ◌≡◌, String, Bool, true, false, not, Option, none, some, is_some, count_if, if◌then◌else◌,
}
use ninja_validator.Floats.{Floats}
use ninja_validator.Duel.Snapshot.{PoolType}
use ninja_validator.Arena.Tables.{Arena, Task, TaskScreening}
use ninja_validator.Arena.Queries.{PoolTargets, target, is_ready_task}
use ninja_validator.Tasks.Rows.{task_of, screening_of, is_candidate, is_pending_screen}

-- A task that waits for its screen has a screening row, and an id without a task, or with a task that is
-- still to be solved, has none.
abbrev pub fits : Option Task → Bool → Bool
fits none screened = not screened
fits (some t) screened =
    if is_candidate t.status_id
    then not screened
    else if is_pending_screen t.status_id
    then screened
    else true

module _ (fl : Floats) where
  pub record IsStocked (targets : PoolTargets) (db : Arena fl) : Type 0 where
    pub admitted :
        (king : String) (pool : PoolType)
        → count_if (is_ready_task king pool) db.tasks ≤ target targets pool
    pub paired :
        (id : String)
        → fits (task_of id db.tasks) (is_some (screening_of fl id db.screenings)) ≡ true
