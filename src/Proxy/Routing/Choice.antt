-- ===== src/Proxy/Routing/Choice.antt =====
-- What `acquire` chooses.
use ninja_validator.Base.{
  ℕ, zero, suc, ◌+◌, ◌%◌, ◌≤◌, ◌<◌, ◌≡◌, refl, String, Bool, true, false, not, Option, none, some,
  List, [], ◌∷◌, arith, inl, inr, leb, contains, string_key, keep, length, get_elem?, ◌⊎◌,
  Option-cases,
}
use native.Mathlib.Nat.{mod-lt}
use ninja_validator.Base.Dict.{Dict, lookup}
use ninja_validator.Proxy.Routing.{
  DisabledStores, EndpointState, AffinityEntry, state_of, min_in_flight, is_least, or_else, Router,
  is_disabled, enabled_base_urls, expire_affinities, preferred, least_loaded, select, prepare,
  acquire,
}

contains-keep :
    (p : String → Bool) (a : String) (xs : List String)
    → contains a (keep p xs) ≡ true
    → (contains a xs ≡ true) × (p a ≡ true)
contains-keep p a [] h = cc
contains-keep p a (x ∷ xs) h =
    (ground (arith, contains-keep p a xs), ground (arith, contains-keep p a xs))

-- `[x for x in xs if p(x)] or xs`: a member, and one that passes if any passes.
contains-or_else :
    (p : String → Bool) (a : String) (xs : List String)
    → contains a (or_else (keep p xs) xs) ≡ true
    → (contains a xs ≡ true) × ((p a ≡ true) ⊎ (keep p xs ≡ []))
contains-or_else p a xs h = ground (arith, contains-keep p a xs)

-- An element by its place.
contains-get_elem? :
    (xs : List String) (i : ℕ)
    → i < length xs
    → (x : String) × (get_elem? xs i ≡ some x) × (contains x xs ≡ true)
contains-get_elem? [] i h = elim h [ ]
contains-get_elem? (x ∷ xs) zero h = (x, refl, ground arith)
contains-get_elem? (x ∷ xs) (suc i) h =
    let (y, e, c) = contains-get_elem? xs i (omega arith) in (y, e, ground arith)

module _ (states : Dict String EndpointState) where
  abbrev pub load_on : String → ℕ
  load_on url = (state_of url states).in_flight

  -- Some candidate has the least load.
  least_kept :
      (u : String) (us : List String)
      → 0 < length (keep (is_least states (min_in_flight states (u ∷ us))) (u ∷ us))
  unfolding min_in_flight is_least
  least_kept u [] = ground arith
  least_kept u (v ∷ us) = ground (arith, least_kept v us)

  -- The least load is a bound.
  pub min_in_flight-le :
      (a : String) (us : List String) → contains a us ≡ true → min_in_flight states us ≤ load_on a
  unfolding min_in_flight
  min_in_flight-le a [] h = cc
  min_in_flight-le a (u ∷ []) h = ground arith
  min_in_flight-le a (u ∷ v ∷ us) h = ground (arith, min_in_flight-le a (v ∷ us))

module _ (ds : DisabledStores) where
  -- The least loaded choice is a candidate of the least load.
  least_loaded_lem :
      (r : Router ds) (u : String) (us : List String)
      → let url = least_loaded ds r (u ∷ us) in
        (contains url (u ∷ us) ≡ true) × (load_on r.states url ≡ min_in_flight r.states (u ∷ us))
  unfolding least_loaded is_least
  least_loaded_lem r u us =
      let least = keep (is_least r.states (min_in_flight r.states (u ∷ us))) (u ∷ us) in
      let bound = mod-lt r.cursor (least_kept r.states u us) in
      let (url, e, c) = contains-get_elem? least (r.cursor % length least) bound in
      let (mem, low) =
        contains-keep (is_least r.states (min_in_flight r.states (u ∷ us))) url (u ∷ us) c in
      rw (e, least_loaded) (mem, ground arith)

  -- What is asked of a choice among candidates.
  abbrev pub IsGoodChoice : Router ds → List String → String → Type 0
  IsGoodChoice r candidates url =
      (contains url candidates ≡ true)
      × (load_on r.states url ≤ min_in_flight r.states candidates + r.affinity_load_slack)

  preferred_lem :
      (r : Router ds) (now : ℕ) (key : Option String) (base_urls candidates : List String)
      (entry : AffinityEntry)
      → preferred ds r now key base_urls candidates ≡ some entry
      → IsGoodChoice r candidates entry.base_url
  unfolding preferred
  preferred_lem r now none base_urls candidates entry h = cc
  preferred_lem r now (some key) base_urls candidates entry h =
      elim (Option-cases (lookup key r.affinities)) [
        | inl n ↦ absurd (ground arith)
        | inr (e, found) ↦ (ground arith, ground arith)
      ]

  select_lem :
      (r : Router ds) (now : ℕ) (key : Option String) (base_urls : List String) (u : String)
      (us : List String)
      → IsGoodChoice r
          (u ∷ us)
          (select ds now key (u ∷ us) r (preferred ds r now key base_urls (u ∷ us))).0
  unfolding select
  select_lem r now key base_urls u us =
      elim (Option-cases (preferred ds r now key base_urls (u ∷ us))) [
        | inl n ↦ rw n (ground (arith, least_loaded_lem r u us))
        | inr (e, p) ↦ rw p (preferred_lem r now key base_urls (u ∷ us) e p)
      ]

  or_else-cons :
      (xs : List String) (u : String) (us : List String)
      → (v : String) × (vs : List String) × (or_else xs (u ∷ us) ≡ v ∷ vs)
  or_else-cons [] u us = (u, us, refl)
  or_else-cons (x ∷ xs) u us = (x, xs, refl)

  module _ (now : ℕ) (u : String) (us : List String) (r : Router ds) where
    prepare_cons : (v : String) × (vs : List String) × ((prepare ds now (u ∷ us) r).1 ≡ v ∷ vs)
    unfolding prepare
    prepare_cons =
        let (e, es, p) =
          or_else-cons (keep (λ x. not (is_disabled ds (expire_affinities ds now r) x)) (u ∷ us)) u
            us in
        rw p (or_else-cons _ e es)

    abbrev chosen : Option String → String × Router ds
    chosen key =
        let (p, candidates) = prepare ds now (u ∷ us) r in
        select ds now key candidates p (preferred ds p now key (u ∷ us) candidates)

    good_choice :
        (key : Option String)
        → IsGoodChoice (prepare ds now (u ∷ us) r).0 (prepare ds now (u ∷ us) r).1 (chosen key).0
    good_choice key =
        let (v, vs, e) = prepare_cons in
        rw e (select_lem (prepare ds now (u ∷ us) r).0 now key (u ∷ us) v vs)

    -- `acquire` answers for every list that is not empty. The url that it picks is one of the list;
    -- it is not disabled, unless all of them are; it is not cooling down, unless every enabled one
    -- is; and its load exceeds the least load of the candidates by at most the slack.
    pub acquire_choice :
        (key : Option String)
        → let (p, candidates) = prepare ds now (u ∷ us) r in
          (url : String) × (r' : Router ds) × (acquire ds now (u ∷ us) key r ≡ some (url, r'))
          × (contains url (u ∷ us) ≡ true)
          × ((is_disabled ds r url ≡ false) ⊎ (keep (λ x. not (is_disabled ds r x)) (u ∷ us) ≡ []))
          × (((state_of url p.states).cooldown_until ≤ now)
              ⊎ (keep
                    (λ x. leb (state_of x p.states).cooldown_until now)
                    (enabled_base_urls ds r (u ∷ us))
                  ≡ []))
          × (load_on p.states url ≤ min_in_flight p.states candidates + r.affinity_load_slack)
    unfolding acquire prepare is_disabled
    acquire_choice key =
        let (good, light) = good_choice key in
        let enabled = enabled_base_urls ds r (u ∷ us) in
        let (member, ready) = contains-or_else _ (chosen key).0 enabled good in
        let (listed, open_) =
          contains-or_else (λ x. not (is_disabled ds r x)) (chosen key).0 (u ∷ us) member in
        (
          (chosen key).0,
          (chosen key).1,
          refl,
          listed,
          elim open_ [ inl o ↦ inl (ground arith) | inr o ↦ inr o ],
          elim ready [ inl o ↦ inl (ground arith) | inr o ↦ inr o ],
          light,
        )
