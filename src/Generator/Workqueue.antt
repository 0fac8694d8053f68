-- ===== src/Generator/Workqueue.antt =====
-- tau/workers/task_generator/workqueue.py. The counters are functions of king and pool. An
-- `asyncio.PriorityQueue` is the list of its entries, least first; the numbers that tell entries
-- apart make its order strict. A call that would wait leaves `none`. The telemetry of a fetched
-- commit (seconds, rejections) is left out, and what is known of the commit is a parameter type.
pub mod Sync
pub mod Units
pub mod Drops
pub mod Slots
pub mod Leak
pub mod Wanted
use ninja_validator.Base.{
  ℕ, zero, suc, ◌+◌, ◌-◌, String, Bool, true, false, not, ◌&&◌, ◌||◌, Option, none, some, List, [],
  ◌∷◌, ltb, leb, eqb, ◌==◌, string_key, contains, length, keep, if◌then◌else◌,
}
use ninja_validator.Duel.Snapshot.{PoolType, pool_one, pool_two, pool_int}
use ninja_validator.Arena.Queries.{same_pool}

-- `PoolDeficit`; the generator lists positive deficits only.
pub record PoolDeficit : Type 0 where
  pub king_id : String
  pub pool : PoolType
  pub deficit : ℕ

pub record FetchRequest : Type 0 where
  pub king_id : String
  pub pool : PoolType

-- `dict[tuple[str, PoolType], int]` with default 0
abbrev pub Counts : Type 0
Counts = String → PoolType → ℕ

abbrev pub same_slot : String → PoolType → String → PoolType → Bool
same_slot king pool king' pool' = king == king' && same_pool pool pool'

-- `counts[(king, pool)] = n`
abbrev pub set_count : String → PoolType → ℕ → Counts → Counts
set_count king pool n counts king' pool' =
    if same_slot king pool king' pool' then n else counts king' pool'

-- An entry `(*priority, item)` of a queue.
pub record Entry (A : Type 0) : Type 0 where
  pub pool_number : ℕ
  pub number : ℕ
  pub item : A

-- The order of the priorities, `(pool, number)`.
unfoldable pub comes_before : {A : Type 0} → Entry A → Entry A → Bool
comes_before x y =
    ltb x.pool_number y.pool_number || (eqb x.pool_number y.pool_number && ltb x.number y.number)

-- `put_nowait`
unfoldable pub put : {A : Type 0} → Entry A → List (Entry A) → List (Entry A)
put e [] = e ∷ []
put e (x ∷ xs) = let rest = put e xs in if comes_before e x then e ∷ x ∷ xs else x ∷ rest

abbrev pub deficit_of : String → PoolType → List PoolDeficit → Option ℕ
deficit_of king pool [] = none
deficit_of king pool (d ∷ ds) = elim (deficit_of king pool ds) [
  | some n ↦ some n
  | none ↦ if same_slot d.king_id d.pool king pool then some d.deficit else none
]

-- `needed.get(pool, 0)`; a later deficit of the same pool overwrites an earlier one.
unfoldable pub needed : String → PoolType → List PoolDeficit → ℕ
needed king pool deficits = elim (deficit_of king pool deficits) [ none ↦ 0 | some n ↦ n ]

module _ (Commit : Type 0) where
  pub record FetchedCommit : Type 0 where
    pub request : FetchRequest
    pub candidate : Commit
    pub fingerprint : String

  pub record WorkQueue : Type 0 where
    pub current_king : Option String
    pub in_flight : Counts
    pub cancel : Counts
    pub inflight_fingerprints : List String
    pub seq : ℕ
    pub to_fetch : List (Entry FetchRequest)
    pub to_describe : List (Entry FetchedCommit)
    pub describe_capacity : ℕ

  -- `self._to_fetch.put_nowait((*self._priority(req), req))`
  unfoldable pub put_request : FetchRequest → WorkQueue → WorkQueue
  put_request req q =
      let e : Entry FetchRequest = record {
        pool_number = pool_int req.pool;
        number = q.seq;
        item = req;
      } in
      record q { to_fetch = put e q.to_fetch; seq = q.seq + 1 }

  -- `for _ in range(n)`
  unfoldable pub put_requests : ℕ → FetchRequest → WorkQueue → WorkQueue
  put_requests zero req q = q
  put_requests (suc n) req q = put_requests n req (put_request req q)

  -- The body of the loop over the pools, with the number that it launches.
  unfoldable pub sync_pool : String → List PoolDeficit → PoolType → WorkQueue → WorkQueue × ℕ
  sync_pool king deficits pool q =
      let want = needed king pool deficits in
      let have = q.in_flight king pool in
      if ltb have want
      then (
        put_requests (want - have) (record { king_id = king; pool = pool })
            (record q {
              in_flight = set_count king pool (have + (want - have)) q.in_flight;
              cancel = set_count king pool 0 q.cancel;
            }),
        want - have,
      )
      else (record q { cancel = set_count king pool (have - want) q.cancel }, 0)

  -- `sync_to_deficits`
  unfoldable pub sync_to_deficits : List PoolDeficit → WorkQueue → WorkQueue × ℕ
  sync_to_deficits [] q = (record q { current_king = none }, 0)
  sync_to_deficits (d ∷ ds) q =
      let q0 = record q { current_king = some d.king_id } in
      let (q1, n) = sync_pool d.king_id (d ∷ ds) pool_one q0 in
      let (q2, m) = sync_pool d.king_id (d ∷ ds) pool_two q1 in (q2, n + m)

  -- `_is_stale`
  unfoldable pub is_stale : FetchRequest → WorkQueue → Bool
  is_stale req q = elim q.current_king [ none ↦ true | some king ↦ not (req.king_id == king) ]

  -- `_take_cancel`
  unfoldable pub take_cancel : FetchRequest → WorkQueue → WorkQueue × Bool
  take_cancel req q =
      let n = q.cancel req.king_id req.pool in
      if ltb 0 n
      then (record q { cancel = set_count req.king_id req.pool (n - 1) q.cancel }, true)
      else (q, false)

  -- `_finish`
  unfoldable pub finish : FetchRequest → WorkQueue → WorkQueue
  finish req q = record q {
    in_flight = set_count req.king_id req.pool (q.in_flight req.king_id req.pool - 1) q.in_flight;
  }

  -- `self._is_stale(req) or self._take_cancel(req)`
  unfoldable pub is_unwanted : FetchRequest → WorkQueue → WorkQueue × Bool
  unfolding is_stale take_cancel
  is_unwanted req q = if is_stale req q then (q, true) else take_cancel req q

  -- `release_fingerprint`
  unfoldable pub release_fingerprint : String → WorkQueue → WorkQueue
  release_fingerprint f q = record q {
    inflight_fingerprints = keep (λ g. not (f == g)) q.inflight_fingerprints;
  }

  -- `reserve_fingerprint`
  unfoldable pub reserve_fingerprint : String → WorkQueue → WorkQueue × Bool
  reserve_fingerprint f q =
      if contains f q.inflight_fingerprints
      then (q, false)
      else (record q { inflight_fingerprints = f ∷ q.inflight_fingerprints }, true)

  -- The loop of `next_to_fetch` on the entries that are queued; `none` waits for more.
  unfoldable pub fetch_from :
      List (Entry FetchRequest) → WorkQueue → WorkQueue × Option FetchRequest
  fetch_from [] q = (record q { to_fetch = [] }, none)
  fetch_from (e ∷ es) q =
      let (q', drop) = is_unwanted e.item q in
      elim drop [
        | true ↦ fetch_from es (finish e.item q')
        | false ↦ (record q' { to_fetch = es }, some e.item)
      ]

  -- `next_to_fetch`
  unfoldable pub next_to_fetch : WorkQueue → WorkQueue × Option FetchRequest
  unfolding fetch_from
  next_to_fetch q = fetch_from q.to_fetch q

  -- The loop of `_next_to_describe`.
  unfoldable pub describe_from :
      List (Entry FetchedCommit) → WorkQueue → WorkQueue × Option FetchedCommit
  describe_from [] q = (record q { to_describe = [] }, none)
  describe_from (e ∷ es) q =
      let (q', drop) = is_unwanted e.item.request q in
      elim drop [
        | true ↦
            describe_from es (finish e.item.request (release_fingerprint e.item.fingerprint q'))
        | false ↦ (record q' { to_describe = es }, some e.item)
      ]

  -- `_next_to_describe`
  unfoldable pub next_to_describe : WorkQueue → WorkQueue × Option FetchedCommit
  unfolding describe_from
  next_to_describe q = describe_from q.to_describe q

  -- `submit_fetched`; `none` waits for room. A capacity of 0 is no bound.
  unfoldable pub submit_fetched : FetchRequest → Commit → String → WorkQueue → Option WorkQueue
  submit_fetched req candidate fingerprint q =
      let fetched : FetchedCommit = record {
        request = req;
        candidate = candidate;
        fingerprint = fingerprint;
      } in
      let e : Entry FetchedCommit = record {
        pool_number = pool_int req.pool;
        number = q.seq;
        item = fetched;
      } in
      if ltb 0 q.describe_capacity && leb q.describe_capacity (length q.to_describe)
      then none
      else some (record q { to_describe = put e q.to_describe; seq = q.seq + 1 })

  -- `fetch_failed` and `requeue`
  abbrev pub requeue : FetchRequest → WorkQueue → WorkQueue
  requeue req q = put_request req q

  -- `done`
  abbrev pub done : FetchRequest → WorkQueue → WorkQueue
  done req q = finish req q
