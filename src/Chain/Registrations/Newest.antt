-- ===== src/Chain/Registrations/Newest.antt =====
-- The newest row of a uid.
use ninja_validator.Base.{
  ℕ, ◌≡◌, refl, String, true, false, Option, none, some, List, [], ◌∷◌, ◌++◌, ltb, leb, eqb, ◌&&◌,
  Bool, nat_key, arith, if◌then◌else◌,
}
use ninja_validator.Base.Dict.{lookup}
use ninja_validator.Arena.Tables.{Registration}
use ninja_validator.Arena.Queries.{current_metagraph, place}
use ninja_validator.Chain.Registrations.{keys_of, latest_keys, is_recorded, insert_row}

-- The row of a uid with the highest block.
unfoldable pub newest : ℕ → List Registration → Option Registration
newest uid [] = none
newest uid (r ∷ rs) =
    let rest = newest uid rs in
    if eqb r.uid uid
    then elim rest [ none ↦ some r | some x ↦ if ltb r.block x.block then some x else some r ]
    else rest

abbrev pub keys_at : Option Registration → Option (String × String)
keys_at none = none
keys_at (some r) = some (r.ss58_hot, r.ss58_cold)

-- The row of a uid among rows of different uids.
unfoldable pub row_at : ℕ → List Registration → Option Registration
row_at uid [] = none
row_at uid (r ∷ rs) = if eqb r.uid uid then some r else row_at uid rs

row_at-place :
    (uid : ℕ) (r : Registration) (rs : List Registration)
    → row_at uid (place r rs) ≡ (
        if eqb r.uid uid
        then elim (row_at uid rs) [
          | none ↦ some r
          | some x ↦ if ltb r.block x.block then some x else some r
        ]
        else row_at uid rs)
unfolding row_at place
row_at-place uid r [] = ground arith
row_at-place uid r (x ∷ xs) = ground (arith, row_at-place uid r xs)

row_at-current_metagraph :
    (uid : ℕ) (rs : List Registration) → row_at uid (current_metagraph rs) ≡ newest uid rs
unfolding newest current_metagraph row_at
row_at-current_metagraph uid [] = refl
row_at-current_metagraph uid (r ∷ rs) =
    ground (arith, row_at-place uid r (current_metagraph rs), row_at-current_metagraph uid rs)

lookup-keys_of :
    (uid : ℕ) (rs : List Registration) → lookup uid (keys_of rs) ≡ keys_at (row_at uid rs)
unfolding row_at
lookup-keys_of uid [] = refl
lookup-keys_of uid (r ∷ rs) = ground (arith, lookup-keys_of uid rs)

-- The latest keys of a uid are those of its newest row.
pub lookup-latest_keys :
    (uid : ℕ) (rs : List Registration) → lookup uid (latest_keys rs) ≡ keys_at (newest uid rs)
unfolding latest_keys
lookup-latest_keys uid rs =
    ground (arith, lookup-keys_of uid (current_metagraph rs), row_at-current_metagraph uid rs)

-- One more row at the end.
newest-append :
    (uid : ℕ) (r : Registration) (rs : List Registration)
    → newest uid (rs ++ r ∷ []) ≡ (
        if eqb r.uid uid
        then elim (newest uid rs) [
          | none ↦ some r
          | some x ↦ if ltb x.block r.block then some r else some x
        ]
        else newest uid rs)
unfolding newest
newest-append uid r [] = ground arith
newest-append uid r (x ∷ xs) = ground (arith, newest-append uid r xs)

-- Whether the newest row of a uid is not before a block.
abbrev pub is_reached : ℕ → Option Registration → Bool
is_reached block none = false
is_reached block (some x) = leb block x.block

pub is_recorded-reaches :
    (uid block : ℕ) (rs : List Registration)
    → is_recorded uid block rs ≡ true
    → is_reached block (newest uid rs) ≡ true
unfolding is_recorded newest
is_recorded-reaches uid block [] e = absurd (ground arith)
is_recorded-reaches uid block (r ∷ rs) e = ground (arith, is_recorded-reaches uid block rs)

-- A row whose block is after every row of its uid becomes the newest, and nothing else changes.
pub newest-insert_row :
    (uid : ℕ) (r : Registration) (rs : List Registration)
    → is_reached r.block (newest r.uid rs) ≡ false
    → newest uid (insert_row r rs) ≡ (if eqb r.uid uid then some r else newest uid rs)
unfolding insert_row
newest-insert_row uid r rs e =
    ground (arith, newest-append uid r rs, is_recorded-reaches r.uid r.block rs)

-- A row of another uid, or one that is recorded, changes nothing for a uid.
pub newest-insert_other :
    (uid : ℕ) (r : Registration) (rs : List Registration)
    → (r.uid ≡ uid → is_recorded uid r.block rs ≡ true)
    → newest uid (insert_row r rs) ≡ newest uid rs
unfolding insert_row
newest-insert_other uid r rs h = ground (arith, newest-append uid r rs, h)

pub is_recorded-append :
    (uid block : ℕ) (r : Registration) (rs : List Registration)
    → is_recorded uid block (rs ++ r ∷ [])
      ≡ (if is_recorded uid block rs then true else eqb r.uid uid && eqb r.block block)
unfolding is_recorded
is_recorded-append uid block r [] = ground arith
is_recorded-append uid block r (x ∷ xs) = ground (arith, is_recorded-append uid block r xs)

-- What is recorded stays so.
pub is_recorded-insert_row :
    (uid block : ℕ) (r : Registration) (rs : List Registration)
    → is_recorded uid block rs ≡ true
    → is_recorded uid block (insert_row r rs) ≡ true
unfolding insert_row
is_recorded-insert_row uid block r rs e = ground (arith, is_recorded-append uid block r rs)
