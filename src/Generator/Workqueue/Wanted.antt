-- ===== src/Generator/Workqueue/Wanted.antt =====
-- Which request the fetcher is given.
use ninja_validator.Base.{
  ℕ, ◌≤◌, ◌≡◌, refl, sym, ◌∙◌, ap, false, some, List, [], ◌∷◌, arith, subst, All, Bool-cases, inl,
  inr, string_key,
}
use ninja_validator.Duel.Snapshot.{pool_int}
use ninja_validator.Generator.Workqueue.{
  FetchRequest, Entry, WorkQueue, comes_before, put, put_request, is_unwanted, finish, fetch_from,
  next_to_fetch,
}
use ninja_validator.Generator.Workqueue.Drops.{fetch_from_end, fetch_from_drop, fetch_from_take}

-- No entry of the list is of a pool before `n`, and each stands under its own pool's number.
abbrev pub NoneBefore : ℕ → List (Entry FetchRequest) → Type 0
NoneBefore n es = All (λ e. (n ≤ pool_int e.item.pool) × (e.pool_number ≡ pool_int e.item.pool)) es

-- Pool one stands before pool two.
abbrev pub IsOrdered : List (Entry FetchRequest) → Type 0
IsOrdered [] = Unit
IsOrdered (e ∷ es) =
    (e.pool_number ≡ pool_int e.item.pool) × NoneBefore (pool_int e.item.pool) es × IsOrdered es

NoneBefore-mono :
    (n m : ℕ) (es : List (Entry FetchRequest)) → n ≤ m → NoneBefore m es → NoneBefore n es
NoneBefore-mono n m [] le h = tt
NoneBefore-mono n m (e ∷ es) le (a, rest) =
    ((omega (arith, a.0), a.1), NoneBefore-mono n m es le rest)

NoneBefore-put :
    (n : ℕ) (e : Entry FetchRequest) (es : List (Entry FetchRequest))
    → n ≤ pool_int e.item.pool
    → e.pool_number ≡ pool_int e.item.pool
    → NoneBefore n es
    → NoneBefore n (put e es)
unfolding put
NoneBefore-put n e [] le num h = ((le, num), tt)
NoneBefore-put n e (x ∷ xs) le num h = elim (Bool-cases (comes_before e x)) [
  | inl b ↦ rw b ((le, num), h)
  | inr b ↦ rw b (h.0, NoneBefore-put n e xs le num h.1)
]

put-IsOrdered :
    (e : Entry FetchRequest) (es : List (Entry FetchRequest))
    → e.pool_number ≡ pool_int e.item.pool
    → IsOrdered es
    → IsOrdered (put e es)
unfolding put comes_before
put-IsOrdered e [] num h = (num, tt, tt)
put-IsOrdered e (x ∷ xs) num (xn, later, rest) = elim (Bool-cases (comes_before e x)) [
  | inl b ↦
      let le : pool_int e.item.pool ≤ pool_int x.item.pool = ground arith in
      rw b (num, ((le, xn), NoneBefore-mono _ _ xs le later), (xn, later, rest))
  | inr b ↦
      let le : pool_int x.item.pool ≤ pool_int e.item.pool = ground arith in
      rw b (xn, NoneBefore-put _ e xs le num later, put-IsOrdered e xs num rest)
]

-- What is not dropped is for the king that reigns.
wanted_lem :
    (Commit : Type 0) (r : FetchRequest) (q : WorkQueue Commit)
    → (is_unwanted Commit r q).1 ≡ false
    → q.current_king ≡ some r.king_id
unfolding is_unwanted
wanted_lem Commit r q h = ground arith

module _ (Commit : Type 0) where
  finish_king :
      (r : FetchRequest) (q : WorkQueue Commit)
      → (finish Commit r (is_unwanted Commit r q).0).current_king ≡ q.current_king
  unfolding finish is_unwanted
  finish_king r q = ground arith

  fetch_from_wanted :
      (es : List (Entry FetchRequest)) (q q' : WorkQueue Commit) (r : FetchRequest)
      → IsOrdered es
      → fetch_from Commit es q ≡ (q', some r)
      → (q.current_king ≡ some r.king_id) × NoneBefore (pool_int r.pool) q'.to_fetch
  fetch_from_wanted [] q q' r o h = absurd (ground (arith, fetch_from_end Commit q))
  fetch_from_wanted (e ∷ es) q q' r (num, later, o) h =
      elim (Bool-cases (is_unwanted Commit e.item q).1) [
        | inl drop ↦
            let (k, first) =
              fetch_from_wanted es (finish Commit e.item (is_unwanted Commit e.item q).0) q' r o
                (sym (fetch_from_drop Commit e es q drop) ∙ h) in
            (sym (finish_king e.item q) ∙ k, first)
        | inr take_ ↦
            let same = sym (fetch_from_take Commit e es q take_) ∙ h in
            let found_ : some e.item ≡ some r = ap (λ z. z.1) same in
            let item : e.item ≡ r = cc found_ in
            let left : es ≡ q'.to_fetch = ap (λ z. z.0.to_fetch) same in
            (
              wanted_lem Commit e.item q take_ ∙ ap (λ s. some s.king_id) item,
              subst (λ s. NoneBefore (pool_int s.pool) q'.to_fetch) item
                  (subst (NoneBefore (pool_int e.item.pool)) left later),
            )
      ]

  -- Queueing a request keeps the queue in the order of the pools.
  pub put_request-IsOrdered :
      (r : FetchRequest) (q : WorkQueue Commit)
      → IsOrdered q.to_fetch
      → IsOrdered (put_request Commit r q).to_fetch
  unfolding put_request
  put_request-IsOrdered r q h = put-IsOrdered _ q.to_fetch refl h

  -- From a queue in the order of the pools, the request that the fetcher is given is one for the
  -- reigning king, and no request that is still queued is of an earlier pool.
  pub next_to_fetch_wanted :
      (q q' : WorkQueue Commit) (r : FetchRequest)
      → IsOrdered q.to_fetch
      → next_to_fetch Commit q ≡ (q', some r)
      → (q.current_king ≡ some r.king_id) × NoneBefore (pool_int r.pool) q'.to_fetch
  unfolding next_to_fetch
  next_to_fetch_wanted q q' r o h = fetch_from_wanted q.to_fetch q q' r o h
