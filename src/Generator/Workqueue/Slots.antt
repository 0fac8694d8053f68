-- ===== src/Generator/Workqueue/Slots.antt =====
-- The units of work and the slots that they hold, while the fetcher and the describers run (the
-- calls of tau/workers/task_generator/pipeline.py).
use ninja_validator.Base.{
  ℕ, ◌+◌, ◌-◌, ap, sym, ◌≡◌, String, none, some, List, ◌∷◌, ◌++◌, arith, string_key, subst,
}
use ninja_validator.Duel.Snapshot.{PoolType}
use ninja_validator.Generator.Workqueue.{
  PoolDeficit, FetchRequest, FetchedCommit, WorkQueue, sync_to_deficits, release_fingerprint,
  next_to_fetch, next_to_describe, submit_fetched, reserve_fingerprint, requeue, done,
}
use ninja_validator.Generator.Workqueue.Units.{
  unit_of, units, request_of, commit_request_of, itself, request_of_commit, sync_to_deficits-units,
  held_lem, reserve_keeps, requeue-units, submit_fetched-units,
}
use ninja_validator.Generator.Workqueue.Drops.{
  drop_unit, finish_keeps, next_to_fetch-units, next_to_describe-units,
}

module _ (Commit : Type 0) where
  -- The queue, the requests that the fetcher holds, the commits that describers hold, and the requests
  -- whose fetch ended in an exception that nothing handles.
  pub record Worker : Type 0 where
    pub queue : WorkQueue Commit
    pub fetching : List FetchRequest
    pub describing : List (FetchedCommit Commit)
    pub lost : List FetchRequest

  -- The units of a king and pool that are queued or held.
  abbrev pub live : String → PoolType → Worker → ℕ
  live king pool w =
      units king pool request_of w.queue.to_fetch
      + units king pool itself w.fetching
      + units king pool commit_request_of w.queue.to_describe
      + units king pool request_of_commit w.describing

  -- Every slot that is counted as in flight is held by a unit, or was lost.
  abbrev pub IsAccounted : Worker → Type 0
  IsAccounted w =
      (king : String) (pool : PoolType)
      → w.queue.in_flight king pool ≡ live king pool w + units king pool itself w.lost

  -- The steps between two waits of the controller, the fetcher and the describers.
  pub data Step (w u : Worker) : Type 0 where
    sync :
        (deficits : List PoolDeficit)
        → u ≡ record w { queue = (sync_to_deficits Commit deficits w.queue).0 }
        → Step w u
    fetch :
        (r : FetchRequest) (q : WorkQueue Commit)
        → next_to_fetch Commit w.queue ≡ (q, some r)
        → u ≡ record w { queue = q; fetching = r ∷ w.fetching }
        → Step w u
    fetch_waits :
        (q : WorkQueue Commit)
        → next_to_fetch Commit w.queue ≡ (q, none)
        → u ≡ record w { queue = q }
        → Step w u
    reserve :
        (fingerprint : String)
        → u ≡ record w { queue = (reserve_fingerprint Commit fingerprint w.queue).0 }
        → Step w u
    submit :
        (xs ys : List FetchRequest) (r : FetchRequest) (c : Commit) (fingerprint : String)
        (q : WorkQueue Commit)
        → w.fetching ≡ xs ++ r ∷ ys
        → submit_fetched Commit r c fingerprint w.queue ≡ some q
        → u ≡ record w { queue = q; fetching = xs ++ ys }
        → Step w u
    fetch_failed :
        (xs ys : List FetchRequest) (r : FetchRequest)
        → w.fetching ≡ xs ++ r ∷ ys
        → u ≡ record w { queue = requeue Commit r w.queue; fetching = xs ++ ys }
        → Step w u
    fetch_raised :
        (xs ys : List FetchRequest) (r : FetchRequest)
        → w.fetching ≡ xs ++ r ∷ ys
        → u ≡ record w { fetching = xs ++ ys; lost = r ∷ w.lost }
        → Step w u
    lease :
        (c : FetchedCommit Commit) (q : WorkQueue Commit)
        → next_to_describe Commit w.queue ≡ (q, some c)
        → u ≡ record w { queue = q; describing = c ∷ w.describing }
        → Step w u
    lease_waits :
        (q : WorkQueue Commit)
        → next_to_describe Commit w.queue ≡ (q, none)
        → u ≡ record w { queue = q }
        → Step w u
    described :
        (xs ys : List (FetchedCommit Commit)) (c : FetchedCommit Commit)
        → w.describing ≡ xs ++ c ∷ ys
        → u ≡ record w {
          queue = release_fingerprint Commit c.fingerprint (done Commit c.request w.queue);
          describing = xs ++ ys;
        }
        → Step w u
    not_described :
        (xs ys : List (FetchedCommit Commit)) (c : FetchedCommit Commit)
        → w.describing ≡ xs ++ c ∷ ys
        → u ≡ record w {
          queue = release_fingerprint Commit c.fingerprint (requeue Commit c.request w.queue);
          describing = xs ++ ys;
        }
        → Step w u

  -- The slots apart from those of the queued requests, and of the queued commits.
  abbrev past_fetch : Worker → String → PoolType → ℕ
  past_fetch w k p =
      units k p itself w.fetching
      + units k p commit_request_of w.queue.to_describe
      + units k p request_of_commit w.describing
      + units k p itself w.lost

  abbrev past_describe : Worker → String → PoolType → ℕ
  past_describe w k p =
      units k p request_of w.queue.to_fetch
      + units k p itself w.fetching
      + units k p request_of_commit w.describing
      + units k p itself w.lost

  Step-IsAccounted : (w u : Worker) → Step w u → IsAccounted w → IsAccounted u
  unfolding release_fingerprint
  Step-IsAccounted w u (sync ds e) h = subst IsAccounted (sym e) (λ k p.
      let (a, b) = sync_to_deficits-units Commit ds w.queue k p in
      omega (arith, h k p, a, ap (units k p commit_request_of) b))
  Step-IsAccounted w u (fetch r q n e) h = subst IsAccounted (sym e) (λ k p.
      let (a, b) =
        next_to_fetch-units Commit w.queue q (some r) (past_fetch w) (λ k p. omega (arith, h k p)) n
          k p in
      omega (arith, a, ap (units k p commit_request_of) b))
  Step-IsAccounted w u (fetch_waits q n e) h = subst IsAccounted (sym e) (λ k p.
      let (a, b) =
        next_to_fetch-units Commit w.queue q none (past_fetch w) (λ k p. omega (arith, h k p)) n k
          p in
      omega (arith, a, ap (units k p commit_request_of) b))
  Step-IsAccounted w u (reserve f e) h = subst IsAccounted (sym e) (λ k p.
      let (a, b, c) = reserve_keeps Commit f w.queue in
      omega (
        arith,
        h k p,
        ap (λ g. g k p) a,
        ap (units k p commit_request_of) b,
        ap (units k p request_of) c,
      ))
  Step-IsAccounted w u (submit xs ys r c f q l n e) h = subst IsAccounted (sym e) (λ k p.
      let (a, b, t) = submit_fetched-units Commit r c f w.queue q k p n in
      omega (
        arith,
        h k p,
        a,
        ap (λ g. g k p) b,
        ap (units k p request_of) t,
        held_lem itself xs ys w.fetching r k p l,
      ))
  Step-IsAccounted w u (fetch_failed xs ys r l e) h = subst IsAccounted (sym e) (λ k p.
      let (a, b, t) = requeue-units Commit r w.queue k p in
      omega (
        arith,
        h k p,
        a,
        ap (λ g. g k p) b,
        ap (units k p commit_request_of) t,
        held_lem itself xs ys w.fetching r k p l,
      ))
  Step-IsAccounted w u (fetch_raised xs ys r l e) h =
      subst IsAccounted (sym e)
        (λ k p. omega (arith, h k p, held_lem itself xs ys w.fetching r k p l))
  Step-IsAccounted w u (lease c q n e) h = subst IsAccounted (sym e) (λ k p.
      let (a, b) =
        next_to_describe-units Commit w.queue q (some c) (past_describe w)
          (λ k p. omega (arith, h k p)) n k p in
      omega (arith, a, ap (units k p request_of) b))
  Step-IsAccounted w u (lease_waits q n e) h = subst IsAccounted (sym e) (λ k p.
      let (a, b) =
        next_to_describe-units Commit w.queue q none (past_describe w) (λ k p. omega (arith, h k p))
          n k p in
      omega (arith, a, ap (units k p request_of) b))
  Step-IsAccounted w u (described xs ys c l e) h = subst IsAccounted (sym e) (λ k p.
      let (a, b) = finish_keeps Commit c.request w.queue in
      let rest : String → PoolType → ℕ = λ k p.
        past_describe w k p
        + units k p commit_request_of w.queue.to_describe
        - unit_of k p c.request in
      omega (
        arith,
        drop_unit Commit c.request w.queue rest
            (λ k p. omega (arith, h k p, held_lem request_of_commit xs ys w.describing c k p l)) k
            p,
        held_lem request_of_commit xs ys w.describing c k p l,
        ap (units k p commit_request_of) a,
        ap (units k p request_of) b,
      ))
  Step-IsAccounted w u (not_described xs ys c l e) h = subst IsAccounted (sym e) (λ k p.
      let (a, b, t) = requeue-units Commit c.request w.queue k p in
      omega (
        arith,
        h k p,
        a,
        ap (λ g. g k p) b,
        ap (units k p commit_request_of) t,
        held_lem request_of_commit xs ys w.describing c k p l,
      ))

  pub data Reach (w : Worker) : Worker → Type 0 where
    here : Reach w w
    next : {t u : Worker} → Reach w t → Step t u → Reach w u

  -- However the controller, the fetcher and the describers interleave, from slots that are accounted
  -- for: the slots in flight of each king and pool are just the units that are queued or held and
  -- the requests whose fetch raised an exception that nothing handles.
  pub Reach-IsAccounted : {w u : Worker} → IsAccounted w → Reach w u → IsAccounted u
  Reach-IsAccounted h here = h
  Reach-IsAccounted h (next {t = t} {u = u} r st) = Step-IsAccounted t u st (Reach-IsAccounted h r)
