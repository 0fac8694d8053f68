-- ===== src/Tasks/Generation/Deficits.antt =====
-- The work that the generator is asked for.
use ninja_validator.Base.{
  ℕ, ◌+◌, ◌-◌, ◌/◌, ◌≤◌, ◌≡◌, refl, ◌∙◌, String, Bool, true, false, some, List, [], ◌∷◌, ◌&&◌, ◌==◌,
  string_key, ltb, arith, count_if,
}
use ninja_validator.Floats.{Floats}
use ninja_validator.Duel.Snapshot.{PoolType, pool_one, pool_two}
use ninja_validator.Arena.Tables.{Arena, Task, TaskStatus}
use ninja_validator.Arena.Queries.{PoolTargets, target, is_ready_task, same_pool, reigning_king}
use ninja_validator.Generator.Workqueue.{PoolDeficit, needed}
use ninja_validator.Tasks.Generation.{
  is_active_task, is_incomplete, deficits_from, deficits_of, pending_pool_deficits,
}

abbrev pub other_pool : PoolType → PoolType
other_pool pool_one = pool_two
other_pool pool_two = pool_one

-- The king's tasks in the pool with the status.
abbrev same_status : TaskStatus → TaskStatus → Bool
same_status TaskStatus.candidate TaskStatus.candidate = true
same_status TaskStatus.qualified TaskStatus.qualified = true
same_status TaskStatus.disqualified TaskStatus.disqualified = true
same_status TaskStatus.pending_screen TaskStatus.pending_screen = true
same_status _ _ = false

-- Half of the tasks to be in flight, the odd one in pool one.
abbrev half : ℕ → PoolType → ℕ
half n pool_one = (n + 1) / 2
half n pool_two = n / 2

abbrev pub fair_share : ℕ → Bool → Bool → PoolType → ℕ
fair_share n false other pool = 0
fair_share n true true pool = half n pool
fair_share n true false pool = n

abbrev pub count_at : String → PoolType → TaskStatus → List Task → ℕ
count_at king pool status tasks =
    count_if
      (λ t. t.king_id == king && (same_status t.status_id status && same_pool t.pool_type pool))
      tasks

count_at-active :
    (king : String) (pool : PoolType) (tasks : List Task)
    → count_if (is_active_task king pool) tasks
      ≡ count_at king pool TaskStatus.candidate tasks
        + count_at king pool TaskStatus.pending_screen tasks
count_at-active king pool [] = refl
count_at-active king pool (t ∷ ts) = ground (arith, count_at-active king pool ts)

count_at-ready :
    (king : String) (pool : PoolType) (tasks : List Task)
    → count_if (is_ready_task king pool) tasks ≡ count_at king pool TaskStatus.qualified tasks
count_at-ready king pool [] = refl
count_at-ready king pool (t ∷ ts) = ground (arith, count_at-ready king pool ts)

-- Fewer qualified tasks than the target.
abbrev pub falls_short : String → PoolTargets → List Task → PoolType → Bool
falls_short king targets tasks pool =
    ltb (count_at king pool TaskStatus.qualified tasks) (target targets pool)

is_incomplete-falls_short :
    (king : String) (targets : PoolTargets) (tasks : List Task) (pool : PoolType)
    → is_incomplete king targets tasks pool ≡ falls_short king targets tasks pool
unfolding is_incomplete
is_incomplete-falls_short king targets tasks pool = rw (count_at-ready king pool tasks) refl

pub needed-deficits_of :
    (king : String) (targets : PoolTargets) (n : ℕ) (tasks : List Task) (pool : PoolType)
    → needed king pool (deficits_of king targets n tasks)
      ≡ fair_share n
          (is_incomplete king targets tasks pool)
          (is_incomplete king targets tasks (other_pool pool))
          pool
        - count_if (is_active_task king pool) tasks
unfolding deficits_of deficits_from is_incomplete needed
needed-deficits_of king targets n tasks pool_one = ground arith
needed-deficits_of king targets n tasks pool_two = ground arith

module _ (fl : Floats) where
  -- While a king reigns and at least one task is to be in flight, the generator always gets an
  -- answer, and a pool is asked for just what its share exceeds its tasks by that are candidates or wait for their screen: no share once the
  -- qualified tasks reach the target, all of the tasks to be in flight if only the other pool has
  -- reached it, and otherwise half of them, the odd one in pool one.
  pub pending_pool_deficits_exact :
      (targets : PoolTargets) (n : ℕ) (db : Arena fl) (king : String)
      → 1 ≤ n
      → reigning_king db.kings ≡ some king
      → (ds : List PoolDeficit) × (pending_pool_deficits fl targets n db ≡ some ds)
        × ((pool : PoolType)
            → needed king pool ds
              ≡ fair_share n
                  (falls_short king targets db.tasks pool)
                  (falls_short king targets db.tasks (other_pool pool))
                  pool
                - (count_at king pool TaskStatus.candidate db.tasks
                    + count_at king pool TaskStatus.pending_screen db.tasks))
  unfolding pending_pool_deficits
  pending_pool_deficits_exact targets n db king h k = (
    deficits_of king targets n db.tasks,
    ground arith,
    λ pool.
        needed-deficits_of king targets n db.tasks pool
        ∙ rw
            (
              is_incomplete-falls_short king targets db.tasks pool,
              is_incomplete-falls_short king targets db.tasks (other_pool pool),
              count_at-active king pool db.tasks,
            )
            refl,
  )
