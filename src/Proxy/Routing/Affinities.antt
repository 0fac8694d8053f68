-- ===== src/Proxy/Routing/Affinities.antt =====
-- The bound on the affinities that the router remembers.
use ninja_validator.Base.{
  ℕ, ◌+◌, ◌≤◌, ◌≡◌, refl, String, Option, none, some, [], ◌∷◌, arith, string_key, length, ltb, leb,
  ◌==◌, inl, inr, Bool-cases,
}
use ninja_validator.Base.Dict.{Dict, insert}
use ninja_validator.Proxy.Routing.{
  DisabledStores, AffinityEntry, Router, oldest_key, pop, make_room, remember_affinity,
}

length-insert :
    (k : String) (v : AffinityEntry) (d : Dict String AffinityEntry)
    → length (insert k v d) ≤ length d + 1
length-insert k v [] = omega arith
length-insert k v ((a, w) ∷ d) = ground (arith, length-insert k v d)

-- There is an oldest entry, and popping its key takes one entry out.
pop-oldest_key :
    (e : String × AffinityEntry) (es : Dict String AffinityEntry)
    → (k : String) × (t : ℕ) × (oldest_key (e ∷ es) ≡ some (k, t))
      × (length (pop k (e ∷ es)) + 1 ≡ length (e ∷ es))
unfolding oldest_key pop
pop-oldest_key (k, e) [] = (k, e.expires_at, refl, ground arith)
pop-oldest_key (k, e) (x ∷ xs) =
    let (j, t, found, less) = pop-oldest_key x xs in
    elim (Bool-cases (ltb t e.expires_at)) [
      | inl older ↦ (j, t, ground (arith, found), ground (arith, less))
      | inr newer ↦ (k, e.expires_at, ground (arith, found), ground arith)
    ]

oldest_of :
    (d : Dict String AffinityEntry)
    → 1 ≤ length d
    → (k : String) × (t : ℕ) × (oldest_key d ≡ some (k, t)) × (length (pop k d) + 1 ≡ length d)
oldest_of [] h = absurd (omega arith)
oldest_of (e ∷ es) h = pop-oldest_key e es

module _ (ds : DisabledStores) where
  make_room_lem :
      (r : Router ds)
      → 1 ≤ r.max_affinities
      → length r.affinities ≤ r.max_affinities
      → (d : Dict String AffinityEntry) × (make_room ds r ≡ some d)
        × (length d + 1 ≤ r.max_affinities)
  unfolding make_room
  make_room_lem r one bound = elim (Bool-cases (leb r.max_affinities (length r.affinities))) [
    | inr roomy ↦ (r.affinities, ground (arith, roomy), ground arith)
    | inl full ↦
        let (k, t, found, less) = oldest_of r.affinities (ground arith) in
        (pop k r.affinities, ground (arith, full, found), omega (arith, less))
  ]

  -- Remembering an affinity never fails, and keeps the number of entries within a bound of at least
  -- one that it was within before.
  pub remember_affinity_bounded :
      (now : ℕ) (key : Option String) (url : String) (r : Router ds)
      → 1 ≤ r.max_affinities
      → length r.affinities ≤ r.max_affinities
      → (r' : Router ds) × (remember_affinity ds now key url r ≡ some r')
        × (length r'.affinities ≤ r.max_affinities)
        × (r'.max_affinities ≡ r.max_affinities)
  unfolding remember_affinity
  remember_affinity_bounded now none url r one bound = (r, refl, bound, refl)
  remember_affinity_bounded now (some key) url r one bound = elim (Bool-cases (key == "")) [
    | inl e ↦ (r, ground (arith, e), bound, refl)
    | inr e ↦
        let (d, room, small) = make_room_lem r one bound in
        let entry : AffinityEntry = record { base_url = url; expires_at = now + r.affinity_ttl } in
        (
          record r { affinities = insert key entry d },
          ground (arith, e, room),
          omega (arith, length-insert key entry d, small),
          refl,
        )
  ]
