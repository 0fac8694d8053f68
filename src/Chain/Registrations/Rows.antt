-- ===== src/Chain/Registrations/Rows.antt =====
-- The rows that a snapshot gives.
use ninja_validator.Base.{
  ℕ, ◌≡◌, refl, String, Bool, true, false, Option, none, some, List, [], ◌∷◌, All, eqb, string_key,
  nat_key, arith, if◌then◌else◌,
}
use ninja_validator.Base.Dict.{Dict, lookup}
use ninja_validator.Arena.Tables.{Registration}
use ninja_validator.Chain.Registrations.{
  NeuronInfo, latest_keys, has_changed, changed_rows, row_of, resolve_block_dates, insert_row,
  insert_rows,
}
use ninja_validator.Chain.Registrations.Newest.{
  newest, keys_at, is_reached, row_at, newest-insert_row,
}

-- The neuron of a snapshot with a uid.
unfoldable pub neuron_at : ℕ → List NeuronInfo → Option NeuronInfo
neuron_at uid [] = none
neuron_at uid (n ∷ ns) = if eqb n.uid uid then some n else neuron_at uid ns

abbrev pub keys_in : Option NeuronInfo → Option (String × String) → Option (String × String)
keys_in none before = before
keys_in (some n) before = some (n.hotkey, n.coldkey)

-- No uid occurs twice.
unfoldable pub AreDistinct : List NeuronInfo → Type 0
AreDistinct [] = Unit
AreDistinct (n ∷ ns) = (neuron_at n.uid ns ≡ none) × AreDistinct ns

-- A neuron with other keys than the latest of its uid registered after every row of the uid, and the
-- time of its registration is found.
pub record IsFresh (block_time : ℕ → Option ℕ) (table : List Registration) (n : NeuronInfo)
    : Type 0 where
  pub later :
      has_changed (lookup n.uid (latest_keys table)) n ≡ true
      → is_reached n.block_at_registration (newest n.uid table) ≡ false
  pub date : ℕ
  pub timed :
      has_changed (lookup n.uid (latest_keys table)) n ≡ true
      → block_time n.block_at_registration ≡ some date

-- The rows are of different uids, and each is after the rows of its uid.
pub AreLater : List Registration → List Registration → Type 0
AreLater table [] = Unit
AreLater table (r ∷ rs) =
    (row_at r.uid rs ≡ none) × (is_reached r.block (newest r.uid table) ≡ false) × AreLater table rs

AreLater-insert :
    (r : Registration) (rs table : List Registration)
    → is_reached r.block (newest r.uid table) ≡ false
    → row_at r.uid rs ≡ none
    → AreLater table rs
    → AreLater (insert_row r table) rs
unfolding AreLater row_at
AreLater-insert r [] table later apart h = tt
AreLater-insert r (x ∷ xs) table later apart (a, b, c) = (
  a,
  ground (arith, newest-insert_row x.uid r table),
  AreLater-insert r xs table later (ground arith) c,
)

abbrev or_else : Option Registration → Option Registration → Option Registration
or_else none y = y
or_else (some x) y = some x

pub newest-insert_rows :
    (uid : ℕ) (rs table : List Registration)
    → AreLater table rs
    → newest uid (insert_rows rs table) ≡ or_else (row_at uid rs) (newest uid table)
unfolding insert_rows row_at AreLater
newest-insert_rows uid [] table h = refl
newest-insert_rows uid (r ∷ rs) table (a, b, c) = ground (
  arith,
  newest-insert_rows uid rs (insert_row r table) (AreLater-insert r rs table b a c),
  newest-insert_row uid r table,
)

-- The neurons that give a row, by uid.
pub neuron_at-changed_rows :
    (uid : ℕ) (latest : Dict ℕ (String × String)) (ns : List NeuronInfo)
    → AreDistinct ns
    → neuron_at uid (changed_rows latest ns) ≡ elim (neuron_at uid ns) [
      | none ↦ none
      | some n ↦ if has_changed (lookup uid latest) n then some n else none
    ]
unfolding neuron_at changed_rows AreDistinct
neuron_at-changed_rows uid latest [] h = refl
neuron_at-changed_rows uid latest (n ∷ ns) (a, b) =
    ground (arith, neuron_at-changed_rows uid latest ns b)

-- Fresh neurons have their rows, which are later ones.
pub record HasRows (block_time : ℕ → Option ℕ) (table : List Registration) (ns : List NeuronInfo)
    : Type 0 where
  pub rows : List Registration
  pub resolved : resolve_block_dates block_time (changed_rows (latest_keys table) ns) ≡ some rows
  pub at_uid :
      (uid : ℕ)
      → keys_at (row_at uid rows)
        ≡ keys_in (neuron_at uid (changed_rows (latest_keys table) ns)) none
  pub are_later : AreLater table rows

HasRows-cons :
    (block_time : ℕ → Option ℕ) (table : List Registration) (n : NeuronInfo) (ns : List NeuronInfo)
    (changed : Bool)
    → has_changed (lookup n.uid (latest_keys table)) n ≡ changed
    → neuron_at n.uid ns ≡ none
    → AreDistinct ns
    → IsFresh block_time table n
    → HasRows block_time table ns
    → HasRows block_time table (n ∷ ns)
unfolding resolve_block_dates changed_rows row_at neuron_at AreLater
HasRows-cons block_time table n ns false e apart d f h = record {
  rows = h.rows;
  resolved = ground (arith, e, h.resolved);
  at_uid = λ uid. ground (arith, e, h.at_uid uid);
  are_later = h.are_later;
}
HasRows-cons block_time table n ns true e apart d f h = record {
  rows = row_of n f.date ∷ h.rows;
  resolved = ground (arith, e, h.resolved, f.timed e);
  at_uid = λ uid. ground (arith, e, h.at_uid uid);
  are_later = (
    ground (arith, h.at_uid n.uid, neuron_at-changed_rows n.uid (latest_keys table) ns d),
    f.later e,
    h.are_later,
  );
}

pub rows_of :
    (block_time : ℕ → Option ℕ) (table : List Registration) (ns : List NeuronInfo)
    → AreDistinct ns
    → All (IsFresh block_time table) ns
    → HasRows block_time table ns
unfolding resolve_block_dates changed_rows row_at neuron_at AreLater AreDistinct
rows_of block_time table [] d f = record {
  rows = [];
  resolved = refl;
  at_uid = λ uid. refl;
  are_later = tt;
}
rows_of block_time table (n ∷ ns) (apart, d) (f, fs) =
    HasRows-cons block_time table n ns (has_changed (lookup n.uid (latest_keys table)) n) refl apart
      d f (rows_of block_time table ns d fs)
