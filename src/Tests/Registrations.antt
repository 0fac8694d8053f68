-- ===== src/Tests/Registrations.antt =====
-- A uid that registers anew at block 9, and one whose hotkey is exchanged at its old registration.
use ninja_validator.Base.{
  ℕ, ◌*◌, ◌≡◌, refl, subst, All, String-discrete, nat_key, some, none, List, [], ◌∷◌, ◌++◌, arith,
  Option,
}
use native.Mathlib.Decide.{ℕ_discrete}
use ninja_validator.Base.Dict.{lookup}
use ninja_validator.Arena.Tables.{Registration}
use ninja_validator.Chain.Registrations.{
  NeuronInfo, MetagraphSnapshot, latest_keys, publish_snapshot, is_recorded,
}
use ninja_validator.Chain.Registrations.Newest.{newest}
use ninja_validator.Chain.Registrations.Published.{publish_snapshot_exact}
use ninja_validator.Chain.Registrations.Rows.{neuron_at, keys_in, AreDistinct}
use ninja_validator.Chain.Watcher.{ChainSource, Watch, run_polls}
use ninja_validator.Chain.Registrations.History.{AreKeyed}
use ninja_validator.Chain.Watcher.Runs.{BlockReached, run_polls-AreKeyed}
use ninja_validator.Chain.Watcher.Missed.{StaysRegistered, RegisteredAt, run_polls-misses_keys}

abbrev table : List Registration
table =
    record { uid = 3; ss58_hot = "h"; ss58_cold = "c"; block = 5; block_date = 60 }
    ∷ record { uid = 4; ss58_hot = "g"; ss58_cold = "c"; block = 5; block_date = 60 }
    ∷ []

abbrev renewed : NeuronInfo
renewed = record { uid = 3; hotkey = "i"; coldkey = "c"; block_at_registration = 9 }

abbrev unchanged : NeuronInfo
unchanged = record { uid = 4; hotkey = "g"; coldkey = "c"; block_at_registration = 5 }

abbrev metagraph : MetagraphSnapshot
metagraph = record { netuid = 66; block = 12; neurons = renewed ∷ unchanged ∷ [] }

abbrev block_time : ℕ → Option ℕ
block_time b = some (b * 12)

published :
    publish_snapshot block_time metagraph table
    ≡ some (
        table
        ++ record { uid = 3; ss58_hot = "i"; ss58_cold = "c"; block = 9; block_date = 108 } ∷ [])
unfolding publish_snapshot String-discrete ℕ_discrete
published = refl

publish_snapshot_exact_example :
    (table' : List Registration) × (publish_snapshot block_time metagraph table ≡ some table')
    × ((uid : ℕ)
        → lookup uid (latest_keys table')
          ≡ keys_in (neuron_at uid metagraph.neurons) (lookup uid (latest_keys table)))
    × ((later_time : ℕ → Option ℕ) → publish_snapshot later_time metagraph table' ≡ some table')
unfolding AreDistinct neuron_at newest latest_keys String-discrete ℕ_discrete
publish_snapshot_exact_example =
    publish_snapshot_exact block_time metagraph table (refl, (refl, tt))
      (
        record { later = λ _. refl; date = 108; timed = λ _. refl },
        (record { later = λ e. cc; date = 0; timed = λ e. cc }, tt),
      )

-- The hotkey of uid 4 is exchanged, at the block that it registered at.
abbrev swapped : ChainSource
swapped = record {
  head = some 12;
  metagraph = λ _ _.
      some record { netuid = 66; block = 12; neurons = record unchanged { hotkey = "j" } ∷ [] };
  block_time = block_time;
}

abbrev start : Watch
start = record { last_block = none; table = table }

run_polls-AreKeyed_example :
    ((added : List Registration) × ((run_polls 66 start (swapped ∷ [])).table
        ≡ start.table ++ added))
    × AreKeyed (run_polls 66 start (swapped ∷ [])).table
    × BlockReached start.last_block (run_polls 66 start (swapped ∷ [])).last_block
unfolding AreKeyed is_recorded ℕ_discrete
run_polls-AreKeyed_example = run_polls-AreKeyed 66 start (swapped ∷ []) (refl, (refl, tt))

swapped_stays : StaysRegistered 4 5 66 swapped
swapped_stays head m e =
    let snapshot : MetagraphSnapshot = record {
      netuid = 66;
      block = 12;
      neurons = record unchanged { hotkey = "j" } ∷ [];
    } in
    let same : snapshot ≡ m = ground arith in
    subst (λ (x : MetagraphSnapshot). All (RegisteredAt 4 5) x.neurons) same (λ _. refl, tt)

run_polls-misses_keys_example :
    lookup 4 (latest_keys (run_polls 66 start (swapped ∷ [])).table)
    ≡ lookup 4 (latest_keys start.table)
unfolding is_recorded ℕ_discrete
run_polls-misses_keys_example =
    run_polls-misses_keys 4 5 66 start (swapped ∷ []) refl (swapped_stays, tt)
