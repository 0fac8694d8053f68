-- ===== src/Chain/Registrations/Published.antt =====
-- What a snapshot leaves in the history.
use ninja_validator.Base.{
  ℕ, ◌≡◌, refl, String, Option, none, some, List, [], ◌∷◌, All, string_key, nat_key, arith,
}
use ninja_validator.Base.Dict.{Dict, lookup}
use ninja_validator.Arena.Tables.{Registration}
use ninja_validator.Chain.Registrations.{
  NeuronInfo, MetagraphSnapshot, latest_keys, changed_rows, resolve_block_dates, insert_rows,
  publish_snapshot,
}
use ninja_validator.Chain.Registrations.Newest.{lookup-latest_keys}
use ninja_validator.Chain.Registrations.Rows.{
  neuron_at, keys_in, AreDistinct, IsFresh, newest-insert_rows, rows_of, neuron_at-changed_rows,
}

-- No neuron gives a row when each has the latest keys of its uid.
changed_rows-nil :
    (latest : Dict ℕ (String × String)) (ns : List NeuronInfo)
    → AreDistinct ns
    → ((uid : ℕ) (n : NeuronInfo)
        → neuron_at uid ns ≡ some n
        → lookup uid latest ≡ some (n.hotkey, n.coldkey))
    → changed_rows latest ns ≡ []
unfolding changed_rows AreDistinct neuron_at
changed_rows-nil latest [] d h = refl
changed_rows-nil latest (n ∷ ns) (apart, d) h = ground (
  arith,
  changed_rows-nil latest ns d (λ uid x e. h uid x (ground arith)),
  h n.uid n (ground arith),
)

-- The early returns of a publication are those of an insertion of no rows.
abbrev pub insert_resolved :
    List Registration → Option (List Registration) → Option (List Registration)
insert_resolved table none = none
insert_resolved table (some rows) = some (insert_rows rows table)

publish-changed :
    (block_time : ℕ → Option ℕ) (m : MetagraphSnapshot) (table : List Registration)
    (ns changed : List NeuronInfo)
    → m.neurons ≡ ns
    → changed_rows (latest_keys table) ns ≡ changed
    → publish_snapshot block_time m table
      ≡ insert_resolved table (resolve_block_dates block_time changed)
unfolding publish_snapshot
publish-changed block_time m table [] [] e c = ground arith
publish-changed block_time m table [] (x ∷ xs) e c = ground arith
publish-changed block_time m table (n ∷ ns) [] e c = ground arith
publish-changed block_time m table (n ∷ ns) (x ∷ xs) e c = ground arith

pub publish-insert_resolved :
    (block_time : ℕ → Option ℕ) (m : MetagraphSnapshot) (table : List Registration)
    → publish_snapshot block_time m table
      ≡ insert_resolved table
          (resolve_block_dates block_time (changed_rows (latest_keys table) m.neurons))
publish-insert_resolved block_time m table =
    publish-changed block_time m table m.neurons (changed_rows (latest_keys table) m.neurons) refl
      refl

-- A snapshot of different uids is published, where each neuron with new keys registered after every
-- row of its uid, at a block whose time is found. Then the latest keys of each uid are those of the
-- snapshot, or as before for a uid that the snapshot lacks, and publishing it once more, with whatever
-- times, succeeds and changes nothing.
pub publish_snapshot_exact :
    (block_time : ℕ → Option ℕ) (m : MetagraphSnapshot) (table : List Registration)
    → AreDistinct m.neurons
    → All (IsFresh block_time table) m.neurons
    → (table' : List Registration) × (publish_snapshot block_time m table ≡ some table')
      × ((uid : ℕ)
          → lookup uid (latest_keys table')
            ≡ keys_in (neuron_at uid m.neurons) (lookup uid (latest_keys table)))
      × ((later_time : ℕ → Option ℕ) → publish_snapshot later_time m table' ≡ some table')
unfolding resolve_block_dates insert_rows
publish_snapshot_exact block_time m table d f =
    let ns = m.neurons in
    let h = rows_of block_time table ns d f in
    let table' = insert_rows h.rows table in
    let latest : (uid : ℕ)
        → lookup uid (latest_keys table')
          ≡ keys_in (neuron_at uid ns) (lookup uid (latest_keys table)) =
      λ uid. ground (
        arith,
        lookup-latest_keys uid table',
        lookup-latest_keys uid table,
        h.at_uid uid,
        newest-insert_rows uid h.rows table h.are_later,
        neuron_at-changed_rows uid (latest_keys table) ns d,
      ) in
    let unchanged : changed_rows (latest_keys table') ns ≡ [] =
      changed_rows-nil (latest_keys table') ns d (λ uid n e. ground (arith, latest uid)) in
    (
      table',
      ground (arith, publish-insert_resolved block_time m table, h.resolved),
      latest,
      λ later_time. ground (arith, publish-insert_resolved later_time m table', unchanged),
    )
