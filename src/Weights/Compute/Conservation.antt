-- ===== src/Weights/Compute/Conservation.antt =====
-- No share is lost or made up between the slots and the submitted vector.
use ninja_validator.Base.{
  ℕ, zero, suc, ◌+◌, ◌≤◌, ◌≡◌, ◌≢◌, refl, true, false, ◌⊎◌, inl, inr, Option, none, some, List, [],
  ◌∷◌, arith, is_some, contains, nat_key, length, ◌∙◌, ◌++◌, ap, sym, subst, take,
}
use mathlib.Core.List.{append-nil, append_assoc}
use ninja_validator.Base.Dict.{Dict, lookup, lookup_or, insert}
use ninja_validator.Weights.Compute.{
  RecentKing, MetagraphView, emission_shares, Split, uid_of_slot, give, give_from, no_weights,
  weights_of, plan_of, shares_of_slots, shares_for, compute_weights, non_burn_kings,
}

abbrev pub total : List ℕ → ℕ
total [] = 0
total (x ∷ xs) = x + total xs

abbrev held : Dict ℕ ℕ → ℕ
held [] = 0
held ((_, v) ∷ d) = v + held d

abbrev keys : Dict ℕ ℕ → List ℕ
keys [] = []
keys ((k, _) ∷ d) = k ∷ keys d

abbrev pub Distinct : List ℕ → Type 0
Distinct [] = Unit
Distinct (u ∷ us) = (contains u us ≡ false) × Distinct us

held-insert :
    (u v : ℕ) (d : Dict ℕ ℕ)
    → is_some (lookup u d) ≡ true
    → held (insert u (lookup_or 0 u d + v) d) ≡ held d + v
held-insert u v [] h = cc
held-insert u v ((k, w) ∷ d) h = ground (arith, held-insert u v d)

keys-insert : (u v : ℕ) (d : Dict ℕ ℕ) → is_some (lookup u d) ≡ true → keys (insert u v d) ≡ keys d
keys-insert u v [] h = cc
keys-insert u v ((k, w) ∷ d) h = ground (arith, keys-insert u v d)

-- What is held and what is to be burnt.
abbrev dealt : Split → ℕ
dealt s = held s.weights_by_uid + s.burn

give_lem :
    (share : ℕ) (uid : Option ℕ) (s : Split)
    → (dealt (give share uid s) ≡ dealt s + share)
      × (keys (give share uid s).weights_by_uid ≡ keys s.weights_by_uid)
unfolding give
give_lem share none s = (omega arith, refl)
give_lem share (some uid) s = (
  ground (arith, held-insert uid share s.weights_by_uid),
  ground (arith, keys-insert uid (lookup_or 0 uid s.weights_by_uid + share) s.weights_by_uid),
)

give_from_lem :
    (kings : List RecentKing) (meta : MetagraphView) (slot : ℕ) (shares : List ℕ) (s : Split)
    → (dealt (give_from kings meta slot shares s) ≡ dealt s + total shares)
      × (keys (give_from kings meta slot shares s).weights_by_uid ≡ keys s.weights_by_uid)
unfolding give_from
give_from_lem kings meta slot [] s = (omega arith, refl)
give_from_lem kings meta slot (share ∷ shares) s =
    let uid = uid_of_slot kings meta slot in
    let (here, same) = give_lem share uid s in
    let (rest, same') = give_from_lem kings meta (slot + 1) shares (give share uid s) in
    (omega (arith, here, rest), same' ∙ same)

-- The vector read off the dictionary holds what the dictionary holds.
weights_of-skip :
    (k v : ℕ) (d : Dict ℕ ℕ) (us : List ℕ)
    → contains k us ≡ false
    → weights_of ((k, v) ∷ d) us ≡ weights_of d us
weights_of-skip k v d [] h = refl
weights_of-skip k v d (u ∷ us) h = ground (arith, weights_of-skip k v d us)

total-weights_of : (d : Dict ℕ ℕ) → Distinct (keys d) → total (weights_of d (keys d)) ≡ held d
total-weights_of [] h = refl
total-weights_of ((k, v) ∷ d) h =
    ground (arith, weights_of-skip k v d (keys d) h.0, total-weights_of d h.1)

contains-append :
    (a : ℕ) (ks : List ℕ) (u : ℕ) (us : List ℕ) → contains a (ks ++ u ∷ us) ≡ false → u ≢ a
contains-append a [] u us h = λ e. ground arith
contains-append a (k ∷ ks) u us h = contains-append a ks u us (ground arith)

fresh_of_Distinct :
    (ks : List ℕ) (u : ℕ) (us : List ℕ) → Distinct (ks ++ u ∷ us) → contains u ks ≡ false
fresh_of_Distinct [] u us h = refl
fresh_of_Distinct (k ∷ ks) u us h =
    ground (arith, contains-append k ks u us h.0, fresh_of_Distinct ks u us h.1)

insert_fresh :
    (u v : ℕ) (d : Dict ℕ ℕ) → contains u (keys d) ≡ false → insert u v d ≡ d ++ (u, v) ∷ []
insert_fresh u v [] h = refl
insert_fresh u v ((k, w) ∷ d) h = ground (arith, insert_fresh u v d)

keys-append : (d e : Dict ℕ ℕ) → keys (d ++ e) ≡ keys d ++ keys e
keys-append [] e = refl
keys-append ((k, v) ∷ d) e = ap (◌∷◌ k) (keys-append d e)

held-append_zero : (u : ℕ) (d : Dict ℕ ℕ) → held (d ++ (u, 0) ∷ []) ≡ held d
held-append_zero u [] = refl
held-append_zero u ((k, v) ∷ d) = rw (held-append_zero u d)

-- The dictionary starts with the metagraph's uids in order, at nothing.
no_weights_lem :
    (us : List ℕ) (d : Dict ℕ ℕ)
    → Distinct (keys d ++ us)
    → (keys (no_weights us d) ≡ keys d ++ us) × (held (no_weights us d) ≡ held d)
unfolding no_weights
no_weights_lem [] d h = (sym (append-nil (keys d)), refl)
no_weights_lem (u ∷ us) d h =
    let grown : insert u 0 d ≡ d ++ (u, 0) ∷ [] =
      insert_fresh u 0 d (fresh_of_Distinct (keys d) u us h) in
    let same : keys (d ++ (u, 0) ∷ []) ++ us ≡ keys d ++ u ∷ us =
      rw (keys-append d ((u, 0) ∷ [])) (append_assoc (keys d) (u ∷ []) us) in
    let (k, z) = no_weights_lem us (d ++ (u, 0) ∷ []) (subst Distinct (sym same) h) in
    rw grown (k ∙ same, z ∙ held-append_zero u d)

total-take_nil : (n : ℕ) → total (take n []) ≡ 0
total-take_nil zero = refl
total-take_nil (suc n) = refl

take_all : (window : ℕ) → 5 ≤ window → total (take window emission_shares) ≡ 100
take_all (suc (suc (suc (suc (suc n))))) h = omega (arith, total-take_nil n)
take_all _ h = absurd (omega arith)

shares_of_slots_whole :
    (filled window : ℕ)
    → filled ≤ window
    → (5 ≤ window) ⊎ (1 ≤ filled)
    → total (shares_of_slots filled window) ≡ 100
unfolding shares_of_slots
shares_of_slots_whole zero window le h = take_all window (omega arith)
shares_of_slots_whole (suc zero) window le h = refl
shares_of_slots_whole (suc (suc zero)) window le h = refl
shares_of_slots_whole (suc (suc (suc zero))) window le h = refl
shares_of_slots_whole (suc (suc (suc (suc zero)))) window le h = refl
shares_of_slots_whole (suc (suc (suc (suc (suc n))))) window le h = take_all window (omega arith)

kept :
    (meta : MetagraphView) (s : Split)
    → Distinct meta.uids
    → keys s.weights_by_uid ≡ meta.uids
    → total (weights_of s.weights_by_uid meta.uids) ≡ held s.weights_by_uid
kept meta s d k = rw (← k) (total-weights_of s.weights_by_uid (subst Distinct (sym k) d))

burnt :
    (meta : MetagraphView) (u : ℕ) (s : Split)
    → Distinct meta.uids
    → keys s.weights_by_uid ≡ meta.uids
    → is_some (lookup u s.weights_by_uid) ≡ true
    → total
        (weights_of (insert u (lookup_or 0 u s.weights_by_uid + s.burn) s.weights_by_uid) meta.uids)
      ≡ dealt s
burnt meta u s d k h =
    let w = insert u (lookup_or 0 u s.weights_by_uid + s.burn) s.weights_by_uid in
    let same : keys w ≡ meta.uids = keys-insert u _ s.weights_by_uid h ∙ k in
    rw (← same) (total-weights_of w (subst Distinct (sym same) d))
    ∙ held-insert u s.burn s.weights_by_uid h

-- The submitted vector, once the burnt shares are added.
plan_of_lem :
    (meta : MetagraphView) (burn_uid : ℕ) (s : Split)
    → Distinct meta.uids
    → keys s.weights_by_uid ≡ meta.uids
    → (plan_of meta burn_uid s).submittable ≡ true
    → total (plan_of meta burn_uid s).weights ≡ dealt s
unfolding plan_of
plan_of_lem meta burn_uid s d k h = ground (arith, kept meta s d k, burnt meta burn_uid s d k)

module _ (kings : List RecentKing) (meta : MetagraphView) (window burn_uid : ℕ) where
  -- Whenever a vector is submitted, over uids that are all different, its weights add up to the
  -- shares that were dealt out: what no registered king of the window claims goes to the burn uid.
  pub weights_conserve :
      Distinct meta.uids
      → (compute_weights kings meta window burn_uid).submittable ≡ true
      → total (compute_weights kings meta window burn_uid).weights
        ≡ total (shares_for kings meta window burn_uid)
  unfolding compute_weights
  weights_conserve d h =
      let (k, z) = no_weights_lem meta.uids [] d in
      let (sum, same) =
        give_from_lem (non_burn_kings kings meta burn_uid) meta 0
          (shares_for kings meta window burn_uid)
          (record { weights_by_uid = no_weights meta.uids []; king_shares = []; burn = 0 }) in
      plan_of_lem meta burn_uid _ d (same ∙ k) h ∙ omega (arith, sum, z)

  shares_whole :
      (5 ≤ window) ⊎ ((1 ≤ window) × (1 ≤ length (non_burn_kings kings meta burn_uid)))
      → total (shares_for kings meta window burn_uid) ≡ 100
  unfolding shares_for
  shares_whole w =
      shares_of_slots_whole _ window (omega arith)
        (elim w [ inl five ↦ inl five | inr (a, b) ↦ inr (omega arith) ])

  -- Whenever a vector is submitted, over uids that are all different, its weights add up to one
  -- whole (100 hundredths) with a window of at least five slots, however many kings there are, and
  -- with a window of at least one slot as soon as there is one king off the burn uid.
  pub weights_whole :
      Distinct meta.uids
      → (compute_weights kings meta window burn_uid).submittable ≡ true
      → (5 ≤ window) ⊎ ((1 ≤ window) × (1 ≤ length (non_burn_kings kings meta burn_uid)))
      → total (compute_weights kings meta window burn_uid).weights ≡ 100
  weights_whole d h w = weights_conserve d h ∙ shares_whole w
