-- ===== src/Tests/Queues.antt =====
-- Runs of the generator's work queue; a commit is its hash.
use ninja_validator.Base.{
  ℕ, ◌+◌, ◌-◌, max, ◌≤◌, ◌≡◌, ◌≢◌, refl, String, none, some, [], ◌∷◌, arith, String-discrete,
}
use ninja_validator.Duel.Snapshot.{PoolType, pool_one, pool_two}
use ninja_validator.Generator.Workqueue.{
  PoolDeficit, FetchRequest, WorkQueue, needed, sync_to_deficits, sync_pool, put_request,
  next_to_fetch, put_requests, put, is_unwanted,
}
use ninja_validator.Generator.Workqueue.Sync.{sync_exact}
use ninja_validator.Generator.Workqueue.Slots.{
  Worker, sync, fetch, fetch_raised, Reach, here, next, IsAccounted, Reach-IsAccounted,
}
use ninja_validator.Generator.Workqueue.Leak.{launched_after_loss}
use ninja_validator.Generator.Workqueue.Wanted.{IsOrdered, NoneBefore, next_to_fetch_wanted}

abbrev need : PoolDeficit
need = record { king_id = "k"; pool = pool_one; deficit = 1 }

abbrev request : FetchRequest
request = record { king_id = "k"; pool = pool_one }

abbrev empty : WorkQueue String
empty = record {
  current_king = none;
  in_flight = λ _ _. 0;
  cancel = λ _ _. 0;
  inflight_fingerprints = [];
  seq = 0;
  to_fetch = [];
  to_describe = [];
  describe_capacity = 4;
}

sync_exact_example :
    let (r, launched) = sync_to_deficits String (need ∷ []) empty in
    let want : PoolType → ℕ = λ p. needed "k" p (need ∷ []) in
    (r.current_king ≡ some "k")
    × ((p : PoolType) → r.in_flight "k" p ≡ max 0 (want p))
    × ((p : PoolType) → r.cancel "k" p ≡ 0 - want p)
    × ((king : String) → king ≢ "k" → (p : PoolType) → r.in_flight king p ≡ 0)
    × (launched ≡ (want pool_one - 0) + (want pool_two - 0))
sync_exact_example = sync_exact String need [] empty

abbrev idle : Worker String
idle = record { queue = empty; fetching = []; describing = []; lost = [] }

idle-IsAccounted : IsAccounted String idle
idle-IsAccounted = λ king pool. omega arith

-- The queue after a poll for one task, and after the fetcher took the request.
abbrev polled : WorkQueue String
polled = (sync_to_deficits String (need ∷ []) empty).0

abbrev taken : WorkQueue String
taken = (next_to_fetch String polled).0

takes_request : next_to_fetch String polled ≡ (taken, some request)
unfolding next_to_fetch sync_to_deficits sync_pool needed String-discrete put_requests put_request
    put is_unwanted
takes_request = refl

-- The fetch raises.
abbrev leaked : Worker String
leaked = record { queue = taken; fetching = []; describing = []; lost = request ∷ [] }

run : Reach String idle leaked
run =
    next (next (next here (sync (need ∷ []) refl)) (fetch request taken takes_request refl))
      (fetch_raised [] [] request refl refl)

Reach-IsAccounted_example : IsAccounted String leaked
Reach-IsAccounted_example = Reach-IsAccounted String idle-IsAccounted run

-- The poll for one task launches none: the lost slot still counts.
launched_after_loss_example :
    (sync_to_deficits String (need ∷ []) leaked.queue).1
    ≤ (needed "k" pool_one (need ∷ []) - 1) + (needed "k" pool_two (need ∷ []) - 0)
unfolding String-discrete
launched_after_loss_example =
    launched_after_loss String {w = leaked} need [] Reach-IsAccounted_example here

polled-IsOrdered : IsOrdered polled.to_fetch
unfolding sync_to_deficits sync_pool needed String-discrete put_requests put_request put
polled-IsOrdered = (refl, tt, tt)

next_to_fetch_wanted_example : (polled.current_king ≡ some "k") × NoneBefore 1 taken.to_fetch
next_to_fetch_wanted_example =
    next_to_fetch_wanted String polled taken request polled-IsOrdered takes_request
