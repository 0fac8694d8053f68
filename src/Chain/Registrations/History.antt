-- ===== src/Chain/Registrations/History.antt =====
-- What a publication keeps of the history.
use ninja_validator.Base.{
  ℕ, ◌≡◌, refl, sym, true, false, Option, none, some, List, [], ◌∷◌, ◌++◌, string_key, nat_key,
  arith, if◌then◌else◌,
}
use mathlib.Core.List.{append-nil, append_assoc}
use ninja_validator.Arena.Tables.{Registration}
use ninja_validator.Chain.Registrations.{
  MetagraphSnapshot, latest_keys, changed_rows, resolve_block_dates, is_recorded, insert_row,
  insert_rows, publish_snapshot,
}
use ninja_validator.Chain.Registrations.Newest.{is_recorded-append}
use ninja_validator.Chain.Registrations.Published.{publish-insert_resolved}

-- No two rows have the same uid and block.
unfoldable pub AreKeyed : List Registration → Type 0
AreKeyed [] = Unit
AreKeyed (r ∷ rs) = (is_recorded r.uid r.block rs ≡ false) × AreKeyed rs

AreKeyed-append :
    (r : Registration) (rs : List Registration)
    → is_recorded r.uid r.block rs ≡ false
    → AreKeyed rs
    → AreKeyed (rs ++ r ∷ [])
unfolding AreKeyed is_recorded
AreKeyed-append r [] e h = (refl, tt)
AreKeyed-append r (x ∷ xs) e (a, b) =
    (ground (arith, is_recorded-append x.uid x.block r xs), AreKeyed-append r xs (ground arith) b)

AreKeyed-insert_row :
    (r : Registration) (rs : List Registration) → AreKeyed rs → AreKeyed (insert_row r rs)
unfolding insert_row
AreKeyed-insert_row r rs h =
    elim (is_recorded r.uid r.block rs)
        as (λ b. is_recorded r.uid r.block rs ≡ b → AreKeyed (if b then rs else rs ++ r ∷ [])) [
          | true ↦ λ e. h
          | false ↦ λ e. AreKeyed-append r rs e h
        ]
      refl

-- What a later state of the history keeps of an earlier one.
pub record IsLaterHistory (table table' : List Registration) : Type 0 where
  pub added : List Registration
  pub extends : table' ≡ table ++ added
  pub keyed : AreKeyed table → AreKeyed table'

pub same_history : (table : List Registration) → IsLaterHistory table table
same_history table = record { added = []; extends = sym (append-nil table); keyed = λ h. h }

pub later_trans :
    (a b c : List Registration) → IsLaterHistory a b → IsLaterHistory b c → IsLaterHistory a c
later_trans a b c h k = record {
  added = h.added ++ k.added;
  extends = ground (arith, h.extends, k.extends, append_assoc a h.added k.added);
  keyed = λ x. k.keyed (h.keyed x);
}

insert_row-IsLaterHistory :
    (r : Registration) (table : List Registration) → IsLaterHistory table (insert_row r table)
unfolding insert_row
insert_row-IsLaterHistory r table = record {
  added = if is_recorded r.uid r.block table then [] else r ∷ [];
  extends = ground (arith, append-nil table);
  keyed = AreKeyed-insert_row r table;
}

pub insert_rows-IsLaterHistory :
    (rs table : List Registration) → IsLaterHistory table (insert_rows rs table)
unfolding insert_rows
insert_rows-IsLaterHistory [] table = same_history table
insert_rows-IsLaterHistory (r ∷ rs) table =
    later_trans table (insert_row r table) (insert_rows rs (insert_row r table))
      (insert_row-IsLaterHistory r table) (insert_rows-IsLaterHistory rs (insert_row r table))

-- What a publication that goes through has inserted.
pub record Inserted (block_time : ℕ → Option ℕ) (m : MetagraphSnapshot)
    (table table' : List Registration) : Type 0 where
  pub rows : List Registration
  pub from_changed :
      resolve_block_dates block_time (changed_rows (latest_keys table) m.neurons) ≡ some rows
  pub inserted : table' ≡ insert_rows rows table

pub publish_snapshot-Inserted :
    (block_time : ℕ → Option ℕ) (m : MetagraphSnapshot) (table table' : List Registration)
    → publish_snapshot block_time m table ≡ some table'
    → Inserted block_time m table table'
publish_snapshot-Inserted block_time m table table' e =
    elim (resolve_block_dates block_time (changed_rows (latest_keys table) m.neurons))
        as (λ o.
          resolve_block_dates block_time (changed_rows (latest_keys table) m.neurons) ≡ o
          → Inserted block_time m table table') [
            | none ↦ λ h. absurd (ground (arith, publish-insert_resolved block_time m table))
            | some rs ↦ λ h. record {
              rows = rs;
              from_changed = h;
              inserted = ground (arith, publish-insert_resolved block_time m table, h);
            }
          ]
      refl
