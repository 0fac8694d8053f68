-- ===== src/Weights/Compute.antt =====
-- tau/weights/compute.py and types.py. A share is counted in hundredths, which is exact for the
-- tables of the source (0.40, 0.15, …); Python adds them as floats. Negative windows and counts, which
-- the source raises to 0, are left out, and so is the summary line for the log.
pub mod Conservation
use ninja_validator.Base.{
  ℕ, suc, ◌+◌, ◌≡◌, refl, String, Bool, true, false, Option, none, some, List, [], ◌∷◌, ltb, ◌==◌,
  nat_key, not, ◌&&◌, zero, string_key, is_some, length, get_elem?, take, min, if◌then◌else◌,
}
use ninja_validator.Base.Dict.{Dict, lookup, lookup_or, insert}

pub record RecentKing : Type 0 where
  pub king_id : String
  pub hotkey : String

pub record MetagraphView : Type 0 where
  pub uids : List ℕ
  pub uid_by_hotkey : Dict String ℕ

pub data SkipReason : Type 0 where
  no_neurons : SkipReason
  burn_uid_absent : ℕ → SkipReason

pub record WeightPlan : Type 0 where
  pub uids : List ℕ
  pub weights : List ℕ
  pub submittable : Bool
  pub skip_reason : Option SkipReason

-- `KING_EMISSION_SHARES`
abbrev pub emission_shares : List ℕ
emission_shares = 40 ∷ 15 ∷ 15 ∷ 15 ∷ 15 ∷ []

-- `BOOTSTRAP_KING_EMISSION_SHARES.get(n)`
abbrev pub bootstrap_shares : ℕ → Option (List ℕ)
bootstrap_shares (suc zero) = some (100 ∷ [])
bootstrap_shares (suc (suc zero)) = some (60 ∷ 40 ∷ [])
bootstrap_shares (suc (suc (suc zero))) = some (40 ∷ 30 ∷ 30 ∷ [])
bootstrap_shares (suc (suc (suc (suc zero)))) = some (40 ∷ 20 ∷ 20 ∷ 20 ∷ [])
bootstrap_shares _ = none

-- The lookup by the number of filled slots, at the end of `king_emission_shares`.
unfoldable pub shares_of_slots : (filled_slots window : ℕ) → List ℕ
shares_of_slots filled_slots window = elim (bootstrap_shares filled_slots) [
  | some shares ↦ shares
  | none ↦ take window emission_shares
]

unfoldable pub king_emission_shares : (window : ℕ) → Option ℕ → List ℕ
unfolding shares_of_slots
king_emission_shares window none = take window emission_shares
king_emission_shares window (some king_count) = shares_of_slots (min king_count window) window

-- `meta.uid_by_hotkey.get(king.hotkey) != burn_uid`
abbrev pub is_burn : MetagraphView → ℕ → RecentKing → Bool
is_burn meta burn_uid king = elim (lookup king.hotkey meta.uid_by_hotkey) [
  | none ↦ false
  | some uid ↦ uid == burn_uid
]

-- `_non_burn_kings`
unfoldable pub non_burn_kings : List RecentKing → MetagraphView → ℕ → List RecentKing
non_burn_kings [] meta burn_uid = []
non_burn_kings (k ∷ ks) meta burn_uid =
    let rest = non_burn_kings ks meta burn_uid in if is_burn meta burn_uid k then rest else k ∷ rest

-- The local variables of the loop.
pub record Split : Type 0 where
  pub weights_by_uid : Dict ℕ ℕ
  pub king_shares : Dict ℕ ℕ
  pub burn : ℕ

-- The uid of the king in a slot, if the slot is filled and the king is in the metagraph.
unfoldable pub uid_of_slot : List RecentKing → MetagraphView → ℕ → Option ℕ
uid_of_slot kings meta slot = elim (get_elem? kings slot) [
  | none ↦ none
  | some king ↦ lookup king.hotkey meta.uid_by_hotkey
]

-- The body of the loop, for a slot whose king has this uid.
unfoldable pub give : ℕ → Option ℕ → Split → Split
give share none s = record s { burn = s.burn + share }
give share (some uid) s =
    if is_some (lookup uid s.weights_by_uid)
    then record s {
      weights_by_uid = insert uid (lookup_or 0 uid s.weights_by_uid + share) s.weights_by_uid;
      king_shares = insert uid (lookup_or 0 uid s.king_shares + share) s.king_shares;
    }
    else record s { burn = s.burn + share }

-- `for slot, share in enumerate(shares)`, from a slot on.
unfoldable pub give_from : List RecentKing → MetagraphView → ℕ → List ℕ → Split → Split
give_from kings meta slot [] s = s
give_from kings meta slot (share ∷ shares) s =
    give_from kings meta (slot + 1) shares (give share (uid_of_slot kings meta slot) s)

-- `{u: 0.0 for u in meta.uids}`
unfoldable pub no_weights : List ℕ → Dict ℕ ℕ → Dict ℕ ℕ
no_weights [] d = d
no_weights (u ∷ us) d = no_weights us (insert u 0 d)

abbrev pub weights_of : Dict ℕ ℕ → List ℕ → List ℕ
weights_of d [] = []
weights_of d (u ∷ us) = lookup_or 0 u d ∷ weights_of d us

abbrev skipped : SkipReason → WeightPlan
skipped reason = record { uids = []; weights = []; submittable = false; skip_reason = some reason }

-- What follows the loop.
unfoldable pub plan_of : MetagraphView → ℕ → Split → WeightPlan
plan_of meta burn_uid s =
    let weights' =
      if ltb 0 s.burn
      then insert burn_uid (lookup_or 0 burn_uid s.weights_by_uid + s.burn) s.weights_by_uid
      else s.weights_by_uid in
    let plan : WeightPlan = record {
      uids = meta.uids;
      weights = weights_of weights' meta.uids;
      submittable = true;
      skip_reason = none;
    } in
    elim meta.uids [
      | [] ↦ skipped no_neurons
      | u ∷ us ↦
          if ltb 0 s.burn && not (is_some (lookup burn_uid s.weights_by_uid))
          then skipped (burn_uid_absent burn_uid)
          else plan
    ]

-- The shares that `compute_weights` deals out.
unfoldable pub shares_for : List RecentKing → MetagraphView → (window burn_uid : ℕ) → List ℕ
unfolding king_emission_shares non_burn_kings
shares_for kings meta window burn_uid =
    king_emission_shares window (some (min (length (non_burn_kings kings meta burn_uid)) window))

unfoldable pub compute_weights :
    List RecentKing → MetagraphView → (window burn_uid : ℕ) → WeightPlan
compute_weights kings meta window burn_uid = plan_of meta burn_uid (
    give_from (non_burn_kings kings meta burn_uid) meta 0 (shares_for kings meta window burn_uid)
      (record { weights_by_uid = no_weights meta.uids []; king_shares = []; burn = 0 }))
