-- ===== src/Generator/Workqueue/Drops.antt =====
-- The calls that take a request or a commit, dropping what is no longer wanted.
use ninja_validator.Base.{
  ℕ, ◌+◌, ap, ◌∙◌, ◌≡◌, refl, inl, inr, String, true, false, Option, none, some, List, [], ◌∷◌,
  arith, string_key, Bool-cases, subst,
}
use ninja_validator.Duel.Snapshot.{PoolType}
use ninja_validator.Generator.Workqueue.{
  FetchRequest, Entry, FetchedCommit, WorkQueue, finish, is_unwanted, release_fingerprint,
  fetch_from, next_to_fetch, describe_from, next_to_describe,
}
use ninja_validator.Generator.Workqueue.Units.{
  unit_of, units, request_of, commit_request_of, itself, request_of_commit,
}

module _ (Commit : Type 0) where
  abbrev pub found : {A : Type 0} → (A → FetchRequest) → String → PoolType → Option A → ℕ
  found f king pool none = 0
  found f king pool (some x) = unit_of king pool (f x)

  -- What `finish` leaves of the slots of a unit that is dropped.
  pub drop_unit :
      (r : FetchRequest) (q : WorkQueue Commit) (rest : String → PoolType → ℕ)
      → ((king : String) (pool : PoolType)
          → q.in_flight king pool ≡ unit_of king pool r + rest king pool)
      → (king : String) (pool : PoolType) → (finish Commit r q).in_flight king pool ≡ rest king pool
  unfolding finish
  drop_unit r q rest h king pool = ground (arith, h king pool, h r.king_id r.pool)

  pub unwanted_keeps :
      (r : FetchRequest) (q : WorkQueue Commit)
      → let q' = (is_unwanted Commit r q).0 in
        (q'.in_flight ≡ q.in_flight) × (q'.to_describe ≡ q.to_describe) × (q'.to_fetch ≡ q.to_fetch)
  unfolding is_unwanted
  unwanted_keeps r q = (ground arith, ground arith, ground arith)

  pub fetch_from_end :
      (q : WorkQueue Commit) → fetch_from Commit [] q ≡ (record q { to_fetch = [] }, none)
  unfolding fetch_from
  fetch_from_end q = refl

  pub fetch_from_drop :
      (e : Entry FetchRequest) (es : List (Entry FetchRequest)) (q : WorkQueue Commit)
      → (is_unwanted Commit e.item q).1 ≡ true
      → fetch_from Commit (e ∷ es) q
        ≡ fetch_from Commit es (finish Commit e.item (is_unwanted Commit e.item q).0)
  unfolding fetch_from
  fetch_from_drop e es q h = ground (arith, h)

  pub fetch_from_take :
      (e : Entry FetchRequest) (es : List (Entry FetchRequest)) (q : WorkQueue Commit)
      → (is_unwanted Commit e.item q).1 ≡ false
      → fetch_from Commit (e ∷ es) q
        ≡ (record (is_unwanted Commit e.item q).0 { to_fetch = es }, some e.item)
  unfolding fetch_from
  fetch_from_take e es q h = ground (arith, h)

  pub finish_keeps :
      (r : FetchRequest) (q : WorkQueue Commit)
      → ((finish Commit r q).to_describe ≡ q.to_describe)
        × ((finish Commit r q).to_fetch ≡ q.to_fetch)
  unfolding finish
  finish_keeps r q = (refl, refl)

  -- Dropped requests give back their slots, and the one that is found keeps its own.
  pub fetch_from-units :
      (es : List (Entry FetchRequest)) (q : WorkQueue Commit) (rest : String → PoolType → ℕ)
      → ((king : String) (pool : PoolType)
          → q.in_flight king pool ≡ units king pool request_of es + rest king pool)
      → (king : String) (pool : PoolType)
      → let (q', r) = fetch_from Commit es q in
        (q'.in_flight king pool
          ≡ units king pool request_of q'.to_fetch + found itself king pool r + rest king pool)
        × (q'.to_describe ≡ q.to_describe)
  fetch_from-units [] q rest h king pool = rw (fetch_from_end q) (omega (arith, h king pool), refl)
  fetch_from-units (e ∷ es) q rest h king pool =
      let (a, b, c) = unwanted_keeps e.item q in
      let q' = (is_unwanted Commit e.item q).0 in
      elim (Bool-cases (is_unwanted Commit e.item q).1) [
        | inl drop ↦
            let h' : (k : String) (p : PoolType)
                → (finish Commit e.item q').in_flight k p ≡ units k p request_of es + rest k p =
              drop_unit e.item q' (λ k p. units k p request_of es + rest k p)
                (λ k p. ap (λ f. f k p) a ∙ omega (arith, h k p)) in
            let (x, y) = fetch_from-units es (finish Commit e.item q') rest h' king pool in
            rw (fetch_from_drop e es q drop) (x, y ∙ (finish_keeps e.item q').0 ∙ b)
        | inr keep ↦
            rw (fetch_from_take e es q keep)
              (ap (λ f. f king pool) a ∙ omega (arith, h king pool), b)
      ]

  describe_from_end :
      (q : WorkQueue Commit) → describe_from Commit [] q ≡ (record q { to_describe = [] }, none)
  unfolding describe_from
  describe_from_end q = refl

  -- The queue once an unwanted commit is dropped.
  abbrev dropped : FetchedCommit Commit → WorkQueue Commit → WorkQueue Commit
  dropped c q =
      finish Commit c.request
        (release_fingerprint Commit c.fingerprint (is_unwanted Commit c.request q).0)

  describe_from_drop :
      (e : Entry (FetchedCommit Commit)) (es : List (Entry (FetchedCommit Commit)))
      (q : WorkQueue Commit)
      → (is_unwanted Commit e.item.request q).1 ≡ true
      → describe_from Commit (e ∷ es) q ≡ describe_from Commit es (dropped e.item q)
  unfolding describe_from
  describe_from_drop e es q h = ground (arith, h)

  describe_from_take :
      (e : Entry (FetchedCommit Commit)) (es : List (Entry (FetchedCommit Commit)))
      (q : WorkQueue Commit)
      → (is_unwanted Commit e.item.request q).1 ≡ false
      → describe_from Commit (e ∷ es) q
        ≡ (record (is_unwanted Commit e.item.request q).0 { to_describe = es }, some e.item)
  unfolding describe_from
  describe_from_take e es q h = ground (arith, h)

  release_keeps :
      (f : String) (q : WorkQueue Commit)
      → let q' = release_fingerprint Commit f q in
        (q'.in_flight ≡ q.in_flight) × (q'.to_describe ≡ q.to_describe) × (q'.to_fetch ≡ q.to_fetch)
  unfolding release_fingerprint
  release_keeps f q = (refl, refl, refl)

  pub describe_from-units :
      (es : List (Entry (FetchedCommit Commit))) (q : WorkQueue Commit)
      (rest : String → PoolType → ℕ)
      → ((king : String) (pool : PoolType)
          → q.in_flight king pool ≡ units king pool commit_request_of es + rest king pool)
      → (king : String) (pool : PoolType)
      → let (q', c) = describe_from Commit es q in
        (q'.in_flight king pool
          ≡ units king pool commit_request_of q'.to_describe
            + found request_of_commit king pool c
            + rest king pool)
        × (q'.to_fetch ≡ q.to_fetch)
  describe_from-units [] q rest h king pool =
      rw (describe_from_end q) (omega (arith, h king pool), refl)
  describe_from-units (e ∷ es) q rest h king pool =
      let (a, b, c) = unwanted_keeps e.item.request q in
      let q' =
        release_fingerprint Commit e.item.fingerprint (is_unwanted Commit e.item.request q).0 in
      let (a', b', c') = release_keeps e.item.fingerprint (is_unwanted Commit e.item.request q).0 in
      elim (Bool-cases (is_unwanted Commit e.item.request q).1) [
        | inl drop ↦
            let h' : (k : String) (p : PoolType)
                → (finish Commit e.item.request q').in_flight k p
                  ≡ units k p commit_request_of es + rest k p =
              drop_unit e.item.request q' (λ k p. units k p commit_request_of es + rest k p)
                (λ k p. ap (λ f. f k p) (a' ∙ a) ∙ omega (arith, h k p)) in
            let (x, y) =
              describe_from-units es (finish Commit e.item.request q') rest h' king pool in
            rw (describe_from_drop e es q drop) (x, y ∙ (finish_keeps e.item.request q').1 ∙ c' ∙ c)
        | inr keep ↦
            rw (describe_from_take e es q keep)
              (ap (λ f. f king pool) a ∙ omega (arith, h king pool), c)
      ]

  pub next_to_fetch-units :
      (q q' : WorkQueue Commit) (r : Option FetchRequest) (rest : String → PoolType → ℕ)
      → ((king : String) (pool : PoolType)
          → q.in_flight king pool ≡ units king pool request_of q.to_fetch + rest king pool)
      → next_to_fetch Commit q ≡ (q', r)
      → (king : String) (pool : PoolType)
      → (q'.in_flight king pool
          ≡ units king pool request_of q'.to_fetch + found itself king pool r + rest king pool)
        × (q'.to_describe ≡ q.to_describe)
  unfolding next_to_fetch
  next_to_fetch-units q q' r rest h n king pool =
      subst
        (λ z.
          (z.0.in_flight king pool
            ≡ units king pool request_of z.0.to_fetch + found itself king pool z.1 + rest king pool)
          × (z.0.to_describe ≡ q.to_describe))
        n (fetch_from-units q.to_fetch q rest h king pool)

  pub next_to_describe-units :
      (q q' : WorkQueue Commit) (c : Option (FetchedCommit Commit)) (rest : String → PoolType → ℕ)
      → ((king : String) (pool : PoolType)
          → q.in_flight king pool
            ≡ units king pool commit_request_of q.to_describe + rest king pool)
      → next_to_describe Commit q ≡ (q', c)
      → (king : String) (pool : PoolType)
      → (q'.in_flight king pool
          ≡ units king pool commit_request_of q'.to_describe
            + found request_of_commit king pool c
            + rest king pool)
        × (q'.to_fetch ≡ q.to_fetch)
  unfolding next_to_describe
  next_to_describe-units q q' c rest h n king pool =
      subst
        (λ z.
          (z.0.in_flight king pool
            ≡ units king pool commit_request_of z.0.to_describe
              + found request_of_commit king pool z.1
              + rest king pool)
          × (z.0.to_fetch ≡ q.to_fetch))
        n (describe_from-units q.to_describe q rest h king pool)
