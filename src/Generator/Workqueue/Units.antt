-- ===== src/Generator/Workqueue/Units.antt =====
-- The slots that requests hold, and how the calls that queue a request change them.
use ninja_validator.Base.{
  ℕ, zero, suc, ◌+◌, ◌-◌, ap, ◌∙◌, ◌≡◌, refl, inl, inr, String, some, List, [], ◌∷◌, ◌++◌, arith,
  string_key, Bool-cases, if◌then◌else◌,
}
use ninja_validator.Duel.Snapshot.{pool_int, PoolType, pool_one, pool_two}
use ninja_validator.Generator.Workqueue.{
  same_slot, set_count, PoolDeficit, FetchRequest, Entry, comes_before, put, FetchedCommit,
  WorkQueue, needed, put_request, put_requests, sync_pool, sync_to_deficits, submit_fetched,
  reserve_fingerprint, requeue,
}

module _ (king : String) (pool : PoolType) where
  -- 1 for a request of this king and pool.
  abbrev pub unit_of : FetchRequest → ℕ
  unit_of r = if same_slot r.king_id r.pool king pool then 1 else 0

  abbrev pub units : {A : Type 0} → (A → FetchRequest) → List A → ℕ
  units f [] = 0
  units f (x ∷ xs) = unit_of (f x) + units f xs

  pub units-append :
      {A : Type 0} (f : A → FetchRequest) (xs ys : List A)
      → units f (xs ++ ys) ≡ units f xs + units f ys
  units-append f [] ys = omega arith
  units-append f (x ∷ xs) ys = omega (arith, units-append f xs ys)

  pub units-put :
      {A : Type 0} (f : Entry A → FetchRequest) (e : Entry A) (xs : List (Entry A))
      → units f (put e xs) ≡ unit_of (f e) + units f xs
  unfolding put
  units-put f e [] = refl
  units-put f e (x ∷ xs) = elim (Bool-cases (comes_before e x)) [
    | inl b ↦ rw b refl
    | inr b ↦ rw b (omega (arith, units-put f e xs))
  ]

abbrev pub request_of : Entry FetchRequest → FetchRequest
request_of e = e.item

abbrev pub commit_request_of : {C : Type 0} → Entry (FetchedCommit C) → FetchRequest
commit_request_of e = e.item.request

abbrev pub itself : FetchRequest → FetchRequest
itself r = r

abbrev pub request_of_commit : {C : Type 0} → FetchedCommit C → FetchRequest
request_of_commit c = c.request

-- One element more or less of what is held.
pub held_lem :
    {A : Type 0} (f : A → FetchRequest) (xs ys held : List A) (x : A) (k : String) (p : PoolType)
    → held ≡ xs ++ x ∷ ys
    → units k p f held ≡ unit_of k p (f x) + units k p f (xs ++ ys)
held_lem f xs ys held x k p e =
    ap (units k p f) e ∙ omega (arith, units-append k p f xs (x ∷ ys), units-append k p f xs ys)

module _ (Commit : Type 0) where
  pub put_requests-units :
      (king : String) (pool : PoolType) (n : ℕ) (r : FetchRequest) (q : WorkQueue Commit)
      → let q' = put_requests Commit n r q in
        (units king pool request_of q'.to_fetch
          ≡ (if same_slot r.king_id r.pool king pool then n else 0)
            + units king pool request_of q.to_fetch)
        × (q'.to_describe ≡ q.to_describe)
        × (q'.in_flight ≡ q.in_flight)
  unfolding put_requests put_request
  put_requests-units king pool zero r q = (ground arith, refl, refl)
  put_requests-units king pool (suc n) r q =
      let (a, b, c) = put_requests-units king pool n r (put_request Commit r q) in
      let put_one =
        units-put king pool request_of
          (record { pool_number = pool_int r.pool; number = q.seq; item = r }) q.to_fetch in
      (ground (arith, a, put_one), b, c)

  -- A launched request takes a slot.
  pub sync_pool-units :
      (king' : String) (ds : List PoolDeficit) (p : PoolType) (q : WorkQueue Commit) (king : String)
      (pool : PoolType)
      → let r = (sync_pool Commit king' ds p q).0 in
        (r.in_flight king pool + units king pool request_of q.to_fetch
          ≡ q.in_flight king pool + units king pool request_of r.to_fetch)
        × (r.to_describe ≡ q.to_describe)
  unfolding sync_pool
  sync_pool-units king' ds p q king pool =
      let n = needed king' p ds - q.in_flight king' p in
      let (a, b, c) =
        put_requests-units king pool n (record { king_id = king'; pool = p })
          (record q {
            in_flight = set_count king' p (q.in_flight king' p + n) q.in_flight;
            cancel = set_count king' p 0 q.cancel;
          }) in
      (ground (arith, a, ap (λ f. f king pool) c), ground (arith, b))

  pub sync_to_deficits-units :
      (ds : List PoolDeficit) (q : WorkQueue Commit) (king : String) (pool : PoolType)
      → let r = (sync_to_deficits Commit ds q).0 in
        (r.in_flight king pool + units king pool request_of q.to_fetch
          ≡ q.in_flight king pool + units king pool request_of r.to_fetch)
        × (r.to_describe ≡ q.to_describe)
  unfolding sync_to_deficits
  sync_to_deficits-units [] q king pool = (refl, refl)
  sync_to_deficits-units (d ∷ ds) q king pool =
      let k = d.king_id in
      let q0 = record q { current_king = some k } in
      let q1 = (sync_pool Commit k (d ∷ ds) pool_one q0).0 in
      let (a, b) = sync_pool-units k (d ∷ ds) pool_one q0 king pool in
      let (c, e) = sync_pool-units k (d ∷ ds) pool_two q1 king pool in (omega (arith, a, c), e ∙ b)

  pub reserve_keeps :
      (f : String) (q : WorkQueue Commit)
      → let q' = (reserve_fingerprint Commit f q).0 in
        (q'.in_flight ≡ q.in_flight) × (q'.to_describe ≡ q.to_describe) × (q'.to_fetch ≡ q.to_fetch)
  unfolding reserve_fingerprint
  reserve_keeps f q = (ground arith, ground arith, ground arith)

  -- Queued again, a request keeps its slot.
  pub requeue-units :
      (r : FetchRequest) (q : WorkQueue Commit) (k : String) (p : PoolType)
      → let q' = requeue Commit r q in
        (units k p request_of q'.to_fetch ≡ unit_of k p r + units k p request_of q.to_fetch)
        × (q'.in_flight ≡ q.in_flight)
        × (q'.to_describe ≡ q.to_describe)
  unfolding put_request
  requeue-units r q k p = (units-put k p request_of _ q.to_fetch, refl, refl)

  pub submit_fetched-units :
      (r : FetchRequest) (c : Commit) (f : String) (q q' : WorkQueue Commit) (k : String)
      (p : PoolType)
      → submit_fetched Commit r c f q ≡ some q'
      → (units k p commit_request_of q'.to_describe
          ≡ unit_of k p r + units k p commit_request_of q.to_describe)
        × (q'.in_flight ≡ q.in_flight)
        × (q'.to_fetch ≡ q.to_fetch)
  unfolding submit_fetched
  submit_fetched-units r c f q q' k p h = (
    ground (
      arith,
      units-put k p commit_request_of
          (record {
            pool_number = pool_int r.pool;
            number = q.seq;
            item = record { request = r; candidate = c; fingerprint = f };
          })
          q.to_describe,
    ),
    ground arith,
    ground arith,
  )
