-- ===== src/Chain/Registrations.antt =====
-- tau/db/database.py: the history of registrations, and the snapshots of tau/bittensor/types.py, less the
-- stakes and the times, which nothing reads. The lookup of a block's time may raise an exception, none.
pub mod Newest
pub mod Rows
pub mod History
pub mod Published
use ninja_validator.Base.{
  ℕ, String, Bool, true, false, not, ◌&&◌, Option, none, some, List, [], ◌∷◌, ◌++◌, eqb, ◌==◌,
  string_key, nat_key, if◌then◌else◌,
}
use ninja_validator.Base.Dict.{Dict, lookup}
use ninja_validator.Arena.Tables.{Registration}
use ninja_validator.Arena.Queries.{current_metagraph, place}

pub record NeuronInfo : Type 0 where
  pub uid : ℕ
  pub hotkey : String
  pub coldkey : String
  pub block_at_registration : ℕ

pub record MetagraphSnapshot : Type 0 where
  pub netuid : ℕ
  pub block : ℕ
  pub neurons : List NeuronInfo

-- A dictionary of the newest rows.
abbrev pub keys_of : List Registration → Dict ℕ (String × String)
keys_of [] = []
keys_of (r ∷ rs) = (r.uid, (r.ss58_hot, r.ss58_cold)) ∷ keys_of rs

-- `_latest_keys`: the query is that of `_current_metagraph`.
unfoldable pub latest_keys : List Registration → Dict ℕ (String × String)
unfolding current_metagraph place
latest_keys rs = keys_of (current_metagraph rs)

-- `latest.get(n.uid) != (n.hotkey, n.coldkey)`
abbrev pub has_changed : Option (String × String) → NeuronInfo → Bool
has_changed none n = true
has_changed (some (hot, cold)) n = not (hot == n.hotkey && cold == n.coldkey)

-- `_changed_rows`: the neurons that give a row.
unfoldable pub changed_rows : Dict ℕ (String × String) → List NeuronInfo → List NeuronInfo
changed_rows latest [] = []
changed_rows latest (n ∷ ns) =
    let rest = changed_rows latest ns in
    if has_changed (lookup n.uid latest) n then n ∷ rest else rest

-- The row of a neuron, with the time of its block.
abbrev pub row_of : NeuronInfo → ℕ → Registration
row_of n date = record {
  uid = n.uid;
  ss58_hot = n.hotkey;
  ss58_cold = n.coldkey;
  block = n.block_at_registration;
  block_date = date;
}

-- `_resolve_block_dates`: the finished rows.
unfoldable pub resolve_block_dates : (ℕ → Option ℕ) → List NeuronInfo → Option (List Registration)
resolve_block_dates block_time [] = some []
resolve_block_dates block_time (n ∷ ns) = elim (block_time n.block_at_registration) [
  | none ↦ none
  | some date ↦ elim (resolve_block_dates block_time ns) [
    | none ↦ none
    | some rows ↦ some (row_of n date ∷ rows)
  ]
]

-- Whether the table has a row with the key `(uid, block)`.
unfoldable pub is_recorded : ℕ → ℕ → List Registration → Bool
is_recorded uid block [] = false
is_recorded uid block (r ∷ rs) =
    let rest = is_recorded uid block rs in if eqb r.uid uid && eqb r.block block then true else rest

-- `insert … on conflict do nothing`, a row at a time.
unfoldable pub insert_row : Registration → List Registration → List Registration
unfolding is_recorded
insert_row r table = if is_recorded r.uid r.block table then table else table ++ r ∷ []

unfoldable pub insert_rows : List Registration → List Registration → List Registration
unfolding insert_row
insert_rows [] table = table
insert_rows (r ∷ rs) table = insert_rows rs (insert_row r table)

-- `publish_snapshot`: the new table, or none for an exception, which leaves the table as it was.
unfoldable pub publish_snapshot :
    (ℕ → Option ℕ) → MetagraphSnapshot → List Registration → Option (List Registration)
unfolding latest_keys changed_rows resolve_block_dates insert_rows
publish_snapshot block_time metagraph table = elim metagraph.neurons [
  | [] ↦ some table
  | n ∷ ns ↦ elim (changed_rows (latest_keys table) (n ∷ ns)) [
    | [] ↦ some table
    | c ∷ cs ↦ elim (resolve_block_dates block_time (c ∷ cs)) [
      | none ↦ none
      | some rows ↦ some (insert_rows rows table)
    ]
  ]
]
