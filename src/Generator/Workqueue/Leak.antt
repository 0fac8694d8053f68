-- ===== src/Generator/Workqueue/Leak.antt =====
-- What a lost slot costs.
use ninja_validator.Base.{ℕ, ◌+◌, ◌-◌, ◌≤◌, String, List, ◌∷◌, arith}
use native.Mathlib.Nat.{le_refl, le_trans}
use ninja_validator.Duel.Snapshot.{PoolType, pool_one, pool_two}
use ninja_validator.Generator.Workqueue.{PoolDeficit, needed, sync_to_deficits}
use ninja_validator.Generator.Workqueue.Units.{units, itself}
use ninja_validator.Generator.Workqueue.Sync.{sync_exact}
use ninja_validator.Generator.Workqueue.Slots.{
  Worker, Step, sync, fetch, fetch_waits, reserve, submit, fetch_failed, fetch_raised, lease,
  lease_waits, described, not_described, Reach, here, next, IsAccounted, Reach-IsAccounted,
}

module _ (Commit : Type 0) (king : String) (pool : PoolType) where
  abbrev pub lost_units : Worker Commit → ℕ
  lost_units w = units king pool itself w.lost

  Step-lost : (w u : Worker Commit) → Step Commit w u → lost_units w ≤ lost_units u
  Step-lost w u (sync ds e) = rw e (le_refl _)
  Step-lost w u (fetch r q n e) = rw e (le_refl _)
  Step-lost w u (fetch_waits q n e) = rw e (le_refl _)
  Step-lost w u (reserve f e) = rw e (le_refl _)
  Step-lost w u (submit xs ys r c f q l n e) = rw e (le_refl _)
  Step-lost w u (fetch_failed xs ys r l e) = rw e (le_refl _)
  Step-lost w u (fetch_raised xs ys r l e) = rw e (omega arith)
  Step-lost w u (lease c q n e) = rw e (le_refl _)
  Step-lost w u (lease_waits q n e) = rw e (le_refl _)
  Step-lost w u (described xs ys c l e) = rw e (le_refl _)
  Step-lost w u (not_described xs ys c l e) = rw e (le_refl _)

  pub Reach-lost : {w u : Worker Commit} → Reach Commit w u → lost_units w ≤ lost_units u
  Reach-lost here = le_refl _
  Reach-lost (next {t = t} {u = u} r st) = le_trans (Reach-lost r) (Step-lost t u st)

module _ (Commit : Type 0) where
  -- A lost slot is lost for good: after any further run, a poll launches at most the need of each
  -- pool less the slots of that pool that were lost before the run.
  pub launched_after_loss :
      {w u : Worker Commit} (d : PoolDeficit) (ds : List PoolDeficit)
      → IsAccounted Commit w
      → Reach Commit w u
      → let want : PoolType → ℕ = λ p. needed d.king_id p (d ∷ ds) in
        let gone : PoolType → ℕ = λ p. lost_units Commit d.king_id p w in
        (sync_to_deficits Commit (d ∷ ds) u.queue).1
        ≤ (want pool_one - gone pool_one) + (want pool_two - gone pool_two)
  launched_after_loss {u = u} d ds h r =
      let k = d.king_id in
      let slots = Reach-IsAccounted Commit h r in
      let (_, _, _, _, launched) = sync_exact Commit d ds u.queue in
      omega (
        arith,
        launched,
        slots k pool_one,
        slots k pool_two,
        Reach-lost Commit k pool_one r,
        Reach-lost Commit k pool_two r,
      )
