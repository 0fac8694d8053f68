-- ===== src/Chain/Watcher/Missed.antt =====
-- New keys of a uid whose registration is recorded already.
use ninja_validator.Base.{
  ℕ, ◌≡◌, inl, inr, refl, sym, ◌∙◌, subst, ap, String, true, Option, none, some, List, [], ◌∷◌, All,
  nat_key, arith,
}
use ninja_validator.Base.Alls.{All-if}
use ninja_validator.Base.Dict.{Dict, lookup}
use ninja_validator.Arena.Tables.{Registration}
use ninja_validator.Chain.Registrations.{
  NeuronInfo, MetagraphSnapshot, latest_keys, has_changed, changed_rows, row_of,
  resolve_block_dates, is_recorded, insert_row, insert_rows,
}
use ninja_validator.Chain.Registrations.Newest.{
  newest, keys_at, lookup-latest_keys, newest-insert_other, is_recorded-insert_row,
}
use ninja_validator.Chain.Watcher.{ChainSource, Watch, poll_once, run_polls}
use ninja_validator.Chain.Watcher.Runs.{poll_once-cases}

module _ (uid block : ℕ) where
  -- A neuron of this uid registered at this block.
  abbrev pub RegisteredAt : NeuronInfo → Type 0
  RegisteredAt n = n.uid ≡ uid → n.block_at_registration ≡ block

  abbrev RowAt : Registration → Type 0
  RowAt r = r.uid ≡ uid → r.block ≡ block

  changed_rows-RegisteredAt :
      (latest : Dict ℕ (String × String)) (ns : List NeuronInfo)
      → All RegisteredAt ns
      → All RegisteredAt (changed_rows latest ns)
  unfolding changed_rows
  changed_rows-RegisteredAt latest [] h = tt
  changed_rows-RegisteredAt latest (n ∷ ns) (a, h) =
      let rest = changed_rows-RegisteredAt latest ns h in
      All-if RegisteredAt (has_changed (lookup n.uid latest) n) (n ∷ changed_rows latest ns)
        (changed_rows latest ns) (λ _. (a, rest)) (λ _. rest)

  resolve-RowAt :
      (block_time : ℕ → Option ℕ) (ns : List NeuronInfo) (rows : List Registration)
      → resolve_block_dates block_time ns ≡ some rows
      → All RegisteredAt ns
      → All RowAt rows
  unfolding resolve_block_dates
  resolve-RowAt block_time [] rows e h =
      subst (All RowAt) (let q : [] ≡ rows = ground arith in q) tt
  resolve-RowAt block_time (n ∷ ns) rows e (a, h) =
      elim (block_time n.block_at_registration)
          as (λ o. block_time n.block_at_registration ≡ o → All RowAt rows) [
            | none ↦ λ t. absurd (ground arith)
            | some date ↦ λ t.
                elim (resolve_block_dates block_time ns)
                    as (λ o. resolve_block_dates block_time ns ≡ o → All RowAt rows) [
                      | none ↦ λ r. absurd (ground arith)
                      | some rs ↦ λ r.
                          let whole : row_of n date ∷ rs ≡ rows = ground arith in
                          subst (All RowAt) whole (a, resolve-RowAt block_time ns rs r h)
                    ]
                  refl
          ]
        refl

  newest-insert_recorded :
      (rs table : List Registration)
      → is_recorded uid block table ≡ true
      → All RowAt rs
      → (newest uid (insert_rows rs table) ≡ newest uid table)
        × (is_recorded uid block (insert_rows rs table) ≡ true)
  unfolding insert_rows
  newest-insert_recorded [] table e h = (refl, e)
  newest-insert_recorded (r ∷ rs) table e (a, h) =
      let kept = is_recorded-insert_row uid block r table e in
      let rest = newest-insert_recorded rs (insert_row r table) kept h in
      let same =
        newest-insert_other uid r table (λ u. ap (λ b. is_recorded uid b table) (a u) ∙ e) in
      (rest.0 ∙ same, rest.1)

  -- The snapshots that the chain answers with have this uid registered at this block.
  abbrev pub StaysRegistered : ℕ → ChainSource → Type 0
  StaysRegistered netuid source =
      (head : ℕ) (m : MetagraphSnapshot)
      → source.metagraph netuid head ≡ some m
      → All RegisteredAt m.neurons

  poll_once-newest :
      (netuid : ℕ) (w : Watch) (source : ChainSource)
      → is_recorded uid block w.table ≡ true
      → StaysRegistered netuid source
      → (newest uid (poll_once netuid w source).table ≡ newest uid w.table)
        × (is_recorded uid block (poll_once netuid w source).table ≡ true)
  poll_once-newest netuid w source e h =
      let Kept : Watch → Type 0 = λ w'.
        (newest uid w'.table ≡ newest uid w.table) × (is_recorded uid block w'.table ≡ true) in
      elim (poll_once-cases source netuid w) [
        | inl same ↦ subst Kept (sym same) (refl, e)
        | inr p ↦
            let i = p.inserted in
            let rows_at =
              resolve-RowAt source.block_time
                (changed_rows (latest_keys w.table) p.metagraph.neurons) i.rows i.from_changed
                (changed_rows-RegisteredAt (latest_keys w.table) p.metagraph.neurons
                  (h p.block p.metagraph p.answered)) in
            subst
              (λ table.
                (newest uid table ≡ newest uid w.table) × (is_recorded uid block table ≡ true))
              (sym i.inserted) (newest-insert_recorded i.rows w.table e rows_at)
      ]

  newest-run_polls :
      (netuid : ℕ) (w : Watch) (sources : List ChainSource)
      → is_recorded uid block w.table ≡ true
      → All (StaysRegistered netuid) sources
      → newest uid (run_polls netuid w sources).table ≡ newest uid w.table
  unfolding run_polls
  newest-run_polls netuid w [] e h = refl
  newest-run_polls netuid w (source ∷ sources) e (a, h) =
      let first = poll_once-newest netuid w source e a in
      newest-run_polls netuid (poll_once netuid w source) sources first.1 h ∙ first.0

  -- The registration of a uid at a block is recorded, and the snapshots that the chain answers with still have the uid
  -- registered at that block. Then no run of the watcher changes the latest keys of the uid, whichever keys the
  -- snapshots give it.
  pub run_polls-misses_keys :
      (netuid : ℕ) (w : Watch) (sources : List ChainSource)
      → is_recorded uid block w.table ≡ true
      → All (StaysRegistered netuid) sources
      → lookup uid (latest_keys (run_polls netuid w sources).table)
        ≡ lookup uid (latest_keys w.table)
  run_polls-misses_keys netuid w sources e h =
      let w' = run_polls netuid w sources in
      lookup-latest_keys uid w'.table
      ∙ ap keys_at (newest-run_polls netuid w sources e h)
      ∙ sym (lookup-latest_keys uid w.table)
