-- ===== src/Chain/Watcher.antt =====
-- tau/bittensor/worker.py: the polls of the chain watcher. What the chain answers to a poll is a
-- parameter: the tip, the metagraph of a subnet at a block and the time of a block, none for an
-- exception.
pub mod Runs
pub mod Missed
use ninja_validator.Base.{ℕ, true, false, Bool, Option, none, some, List, [], ◌∷◌, leb}
use ninja_validator.Arena.Tables.{Registration}
use ninja_validator.Chain.Registrations.{MetagraphSnapshot, publish_snapshot}

-- `ChainSource`, as it answers during one poll; the head is its block.
pub record ChainSource : Type 0 where
  pub head : Option ℕ
  pub metagraph : ℕ → ℕ → Option MetagraphSnapshot
  pub block_time : ℕ → Option ℕ

-- `last_block is not None and head.block <= last_block`
abbrev pub is_seen : Option ℕ → ℕ → Bool
is_seen none block = false
is_seen (some last) block = leb block last

-- What a poll leaves: the last block and the table.
pub record Watch : Type 0 where
  pub last_block : Option ℕ
  pub table : List Registration

-- `step`, with the sink that publishes to the table; none for an exception.
unfoldable pub step : ChainSource → ℕ → Watch → Option Watch
step source netuid w = elim source.head [
  | none ↦ none
  | some block ↦ elim (is_seen w.last_block block) [
    | true ↦ some w
    | false ↦ elim (source.metagraph netuid block) [
      | none ↦ none
      | some metagraph ↦ elim (publish_snapshot source.block_time metagraph w.table) [
        | none ↦ none
        | some table ↦ some record { last_block = some block; table = table }
      ]
    ]
  ]
]

-- One turn of the loop of `run`: an exception is logged.
unfoldable pub poll_once : ℕ → Watch → ChainSource → Watch
unfolding step
poll_once netuid w source = elim (step source netuid w) [ none ↦ w | some w' ↦ w' ]

-- `run`, over the polls until it is interrupted.
unfoldable pub run_polls : ℕ → Watch → List ChainSource → Watch
run_polls netuid w [] = w
run_polls netuid w (source ∷ sources) = run_polls netuid (poll_once netuid w source) sources
