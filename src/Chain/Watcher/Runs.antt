-- ===== src/Chain/Watcher/Runs.antt =====
-- Runs of the watcher.
use ninja_validator.Base.{
  ℕ, ◌≤◌, ◌≡◌, ◌⊎◌, inl, inr, refl, sym, subst, true, false, Option, none, some, List, [], ◌∷◌,
  ◌++◌, string_key, nat_key, arith,
}
use ninja_validator.Arena.Tables.{Registration}
use ninja_validator.Chain.Registrations.{MetagraphSnapshot, publish_snapshot}
use ninja_validator.Chain.Watcher.{ChainSource, Watch, is_seen, poll_once, run_polls}
use ninja_validator.Chain.Registrations.History.{
  AreKeyed, IsLaterHistory, same_history, later_trans, insert_rows-IsLaterHistory, Inserted,
  publish_snapshot-Inserted,
}

-- The last block never goes back.
abbrev pub BlockReached : Option ℕ → Option ℕ → Type 0
BlockReached none last = Unit {0}
BlockReached (some block) none = ⊥
BlockReached (some block) (some last) = block ≤ last

pub record Progress (w w' : Watch) : Type 0 where
  pub history : IsLaterHistory w.table w'.table
  pub reached : BlockReached w.last_block w'.last_block

-- A poll that publishes.
pub record IsPublished (source : ChainSource) (netuid : ℕ) (w w' : Watch) : Type 0 where
  pub block : ℕ
  pub metagraph : MetagraphSnapshot
  pub unseen : is_seen w.last_block block ≡ false
  pub answered : source.metagraph netuid block ≡ some metagraph
  pub inserted : Inserted source.block_time metagraph w.table w'.table
  pub reached : w'.last_block ≡ some block

module _ (source : ChainSource) (netuid : ℕ) (w : Watch) where
  published :
      (block : ℕ) (m : MetagraphSnapshot) (table : Option (List Registration))
      → source.head ≡ some block
      → is_seen w.last_block block ≡ false
      → source.metagraph netuid block ≡ some m
      → publish_snapshot source.block_time m w.table ≡ table
      → (poll_once netuid w source ≡ w) ⊎ IsPublished source netuid w (poll_once netuid w source)
  unfolding poll_once
  published block m none e f g h = inl (ground arith)
  published block m (some table) e f g h =
      let w' : Watch = record { last_block = some block; table = table } in
      let after : poll_once netuid w source ≡ w' = ground arith in
      inr (
        subst (IsPublished source netuid w) (sym after) (record {
          block = block;
          metagraph = m;
          unseen = f;
          answered = g;
          inserted = publish_snapshot-Inserted source.block_time m w.table table h;
          reached = refl;
        }))

  -- A poll changes nothing or publishes.
  pub poll_once-cases :
      (poll_once netuid w source ≡ w) ⊎ IsPublished source netuid w (poll_once netuid w source)
  unfolding poll_once
  poll_once-cases =
      let Goal =
        (poll_once netuid w source ≡ w) ⊎ IsPublished source netuid w (poll_once netuid w source) in
      elim source.head as (λ o. source.head ≡ o → Goal) [
        | none ↦ λ e. inl (ground arith)
        | some block ↦ λ e.
            elim (is_seen w.last_block block) as (λ b. is_seen w.last_block block ≡ b → Goal) [
              | true ↦ λ f. inl (ground arith)
              | false ↦ λ f.
                  elim (source.metagraph netuid block)
                      as (λ o. source.metagraph netuid block ≡ o → Goal) [
                        | none ↦ λ g. inl (ground arith)
                        | some m ↦ λ g.
                            published block m (publish_snapshot source.block_time m w.table) e f g
                              refl
                      ]
                    refl
            ]
              refl
      ]
        refl

BlockReached-refl : (last : Option ℕ) → BlockReached last last
BlockReached-refl none = tt
BlockReached-refl (some block) = omega arith

reached_trans : (a b c : Option ℕ) → BlockReached a b → BlockReached b c → BlockReached a c
reached_trans none b c h k = tt
reached_trans (some a) none c h k = elim h [ ]
reached_trans (some a) (some b) none h k = elim k [ ]
reached_trans (some a) (some b) (some c) h k = omega arith

BlockReached-unseen :
    (last : Option ℕ) (block : ℕ) → is_seen last block ≡ false → BlockReached last (some block)
BlockReached-unseen none block e = tt
BlockReached-unseen (some last) block e = ground arith

same_watch : (w : Watch) → Progress w w
same_watch w = record { history = same_history w.table; reached = BlockReached-refl w.last_block }

poll_once-Progress :
    (netuid : ℕ) (w : Watch) (source : ChainSource) → Progress w (poll_once netuid w source)
poll_once-Progress netuid w source = elim (poll_once-cases source netuid w) [
  | inl same ↦ subst (Progress w) (sym same) (same_watch w)
  | inr p ↦ record {
    history =
        subst (IsLaterHistory w.table) (sym p.inserted.inserted)
          (insert_rows-IsLaterHistory p.inserted.rows w.table);
    reached =
        subst (BlockReached w.last_block) (sym p.reached)
          (BlockReached-unseen w.last_block p.block p.unseen);
  }
]

run_polls-Progress :
    (netuid : ℕ) (w : Watch) (sources : List ChainSource) → Progress w (run_polls netuid w sources)
unfolding run_polls
run_polls-Progress netuid w [] = same_watch w
run_polls-Progress netuid w (source ∷ sources) =
    let w' = poll_once netuid w source in
    let first = poll_once-Progress netuid w source in
    let rest = run_polls-Progress netuid w' sources in
    let last = run_polls netuid w' sources in
    record {
      history = later_trans w.table w'.table last.table first.history rest.history;
      reached = reached_trans w.last_block w'.last_block last.last_block first.reached rest.reached;
    }

-- From a history whose rows differ in uid or block, and whatever the chain answers to the polls, failed ones
-- included: the watcher only adds rows at the end, the rows still differ so, and its last block never
-- goes back.
pub run_polls-AreKeyed :
    (netuid : ℕ) (w : Watch) (sources : List ChainSource)
    → AreKeyed w.table
    → ((added : List Registration) × ((run_polls netuid w sources).table ≡ w.table ++ added))
      × AreKeyed (run_polls netuid w sources).table
      × BlockReached w.last_block (run_polls netuid w sources).last_block
run_polls-AreKeyed netuid w sources h =
    let p = run_polls-Progress netuid w sources in
    ((p.history.added, p.history.extends), p.history.keyed h, p.reached)
