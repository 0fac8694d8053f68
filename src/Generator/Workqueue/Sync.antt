-- ===== src/Generator/Workqueue/Sync.antt =====
-- What a poll of the deficits does to the slots and the cancellations.
use ninja_validator.Base.{
  ℕ, zero, suc, ◌+◌, ◌-◌, max, ap, ◌≡◌, ◌≢◌, refl, String, some, List, ◌∷◌, arith, string_key,
  if◌then◌else◌,
}
use ninja_validator.Duel.Snapshot.{PoolType, pool_one, pool_two}
use ninja_validator.Generator.Workqueue.{
  same_slot, set_count, PoolDeficit, FetchRequest, WorkQueue, needed, put_request, put_requests,
  sync_pool, sync_to_deficits,
}

module _ (Commit : Type 0) where
  put_requests_keeps :
      (n : ℕ) (req : FetchRequest) (q : WorkQueue Commit)
      → let q' = put_requests Commit n req q in
        (q'.in_flight ≡ q.in_flight) × (q'.cancel ≡ q.cancel) × (q'.current_king ≡ q.current_king)
  unfolding put_requests put_request
  put_requests_keeps zero req q = (refl, refl, refl)
  put_requests_keeps (suc n) req q = put_requests_keeps n req (put_request Commit req q)

  sync_pool_lem :
      (king : String) (ds : List PoolDeficit) (p : PoolType) (q : WorkQueue Commit) (king' : String)
      (p' : PoolType)
      → let (r, launched) = sync_pool Commit king ds p q in
        let have = q.in_flight king p in
        let want = needed king p ds in
        (r.current_king ≡ q.current_king)
        × (r.in_flight king' p'
            ≡ (if same_slot king p king' p' then max have want else q.in_flight king' p'))
        × (r.cancel king' p'
            ≡ (if same_slot king p king' p' then have - want else q.cancel king' p'))
        × (launched ≡ want - have)
  unfolding sync_pool
  sync_pool_lem king ds p q king' p' =
      let n = needed king p ds - q.in_flight king p in
      let (a, b, c) =
        put_requests_keeps n (record { king_id = king; pool = p })
          (record q {
            in_flight = set_count king p (q.in_flight king p + n) q.in_flight;
            cancel = set_count king p 0 q.cancel;
          }) in
      (
        ground (arith, c),
        ground (arith, ap (λ f. f king' p') a),
        ground (arith, ap (λ f. f king' p') b),
        ground arith,
      )

  -- A poll with deficits makes their king the current one. For each pool it raises the slots in
  -- flight to the need where they fall short, and else plans to cancel just the surplus; it touches
  -- no other king's slots, and reports the number that it launched.
  pub sync_exact :
      (d : PoolDeficit) (ds : List PoolDeficit) (q : WorkQueue Commit)
      → let (r, launched) = sync_to_deficits Commit (d ∷ ds) q in
        let have = q.in_flight d.king_id in
        let want : PoolType → ℕ = λ p. needed d.king_id p (d ∷ ds) in
        (r.current_king ≡ some d.king_id)
        × ((p : PoolType) → r.in_flight d.king_id p ≡ max (have p) (want p))
        × ((p : PoolType) → r.cancel d.king_id p ≡ have p - want p)
        × ((king : String)
            → king ≢ d.king_id
            → (p : PoolType) → r.in_flight king p ≡ q.in_flight king p)
        × (launched ≡ (want pool_one - have pool_one) + (want pool_two - have pool_two))
  unfolding sync_to_deficits
  sync_exact d ds q =
      let k = d.king_id in
      let q0 = record q { current_king = some k } in
      let q1 = (sync_pool Commit k (d ∷ ds) pool_one q0).0 in
      let first = sync_pool_lem k (d ∷ ds) pool_one q0 in
      let second = sync_pool_lem k (d ∷ ds) pool_two q1 in
      (
        ground (arith, (first k pool_one).0, (second k pool_one).0),
        λ p. ground (arith, (first k p).1, (second k p).1),
        λ p. ground (arith, (first k p).2, (second k p).2, (first k pool_two).1),
        λ king ne p. ground (arith, (first king p).1, (second king p).1),
        ground (arith, (first k pool_one).3, (second k pool_two).3, (first k pool_two).1),
      )
