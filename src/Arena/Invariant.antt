-- ===== src/Arena/Invariant.antt =====
-- What holds of the tables between two of the resolver's writes, and each write's effect.
pub mod Crowned
pub mod Keeps
use ninja_validator.Base.{
  ℕ, ◌≤◌, ◌<◌, ◌≡◌, ◌≢◌, refl, String, Bool, true, false, not, List, [], ◌∷◌, ◌++◌, arith, inl, inr,
  Bool-cases, some, eqb, if◌then◌else◌, lt→ltb, contains, string_key,
}
use ninja_validator.Floats.{Floats}
use ninja_validator.Duel.Snapshot.{ActiveChallenge, pool_int}
use ninja_validator.Arena.Tables.{King, ChallengeStatus, DuelOutcome, Arena, DuelResolution}
use ninja_validator.Arena.Queries.{latest_king, reigning_king, king_ids}
use ninja_validator.Arena.Writes.{
  set_status, Rules, resolution_row, record_resolution, resolve, insert_king, promote,
}
use ninja_validator.Arena.Writes.Status.{active_count, Faces, Unique}
use ninja_validator.Arena.Writes.Rank.{rank, status_rank, set_status_iff, Settled, no_verdict_yet}

module _ (fl : Floats) where
  -- At most one challenge is active, an active one is against the reigning king, nobody has two
  -- challenges, and a verdict is recorded only of a pool that its challenge has left.
  pub record IsValid (db : Arena fl) : Type 0 where
    pub one_active : active_count db.challenges ≤ 1
    pub faces : Faces (reigning_king db.kings) db.challenges
    pub unique : Unique db.challenges
    pub settled : Settled fl db.challenges db.resolutions

  module _ (a : ActiveChallenge fl) (rules : Rules fl) (db : Arena fl) where
    abbrev pub InObservedPool : Type 0
    InObservedPool = status_rank a.challenger_submission_id db.challenges ≡ pool_int a.pool

    -- Whether the challenge is still in the pool that the snapshot saw.
    abbrev pub observed : Bool
    observed = eqb (status_rank a.challenger_submission_id db.challenges) (pool_int a.pool)

    -- The tables after the challenge moved to `new` and its verdict was added.
    abbrev pub moved : ChallengeStatus → DuelOutcome → Arena fl
    moved new outcome = record db {
      challenges = (set_status a.challenger_submission_id a.pool new db.challenges).0;
      resolutions = db.resolutions ++ resolution_row fl a outcome rules ∷ [];
    }

    record_resolution_fresh :
        (outcome : DuelOutcome)
        → IsValid db
        → InObservedPool
        → record_resolution fl a outcome rules db.resolutions
          ≡ db.resolutions ++ resolution_row fl a outcome rules ∷ []
    unfolding record_resolution
    record_resolution_fresh outcome v e = rw (
        no_verdict_yet fl a.challenger_submission_id a.pool db.challenges db.resolutions v.settled
          (omega (arith, e)))

    pub resolve_cases :
        (new : ChallengeStatus) (outcome : DuelOutcome)
        → IsValid db
        → (InObservedPool → resolve fl new a outcome rules db ≡ (moved new outcome, true))
          × (¬ InObservedPool → resolve fl new a outcome rules db ≡ (db, false))
    unfolding resolve
    resolve_cases new outcome v =
        let (to, from) =
          set_status_iff a.challenger_submission_id a.pool new db.challenges v.unique in
        (
          λ e. ground (arith, from e, record_resolution_fresh outcome v e),
          λ n.
              elim (Bool-cases (set_status a.challenger_submission_id a.pool new db.challenges).1) [
                | inl done ↦ absurd (n (to done))
                | inr e ↦ rw e
              ],
        )

    -- The guarded transition goes through just when the challenge is still in the pool that the
    -- snapshot saw. Then the challenge has the new status and its verdict is appended, never lost to
    -- a conflict; otherwise no table changes.
    pub resolve_exact :
        (new : ChallengeStatus) (outcome : DuelOutcome)
        → IsValid db
        → resolve fl new a outcome rules db
          ≡ (if observed then (moved new outcome, true) else (db, false))
    resolve_exact new outcome v =
        let (same, stale) = resolve_cases new outcome v in
        elim (Bool-cases observed) [
          | inl o ↦ rw o (same (ground arith))
          | inr o ↦ rw o (stale (λ e. ground arith))
        ]

    -- The tables after a promotion that went through.
    abbrev pub crowned : ℕ → Arena fl
    crowned now = record (moved ChallengeStatus.closed DuelOutcome.challenger_won) {
      kings = insert_king now a.challenger_submission_id db.kings;
    }

    -- A promotion by the writes that it is made of.
    pub promote_by_writes :
        (now : ℕ)
        → IsValid db
        → promote fl now a rules db ≡ (if observed then (crowned now, true) else (db, false))
    unfolding promote
    promote_by_writes now v =
        let e = resolve_exact ChallengeStatus.closed DuelOutcome.challenger_won v in
        elim (Bool-cases observed) [ inl o ↦ rw (e, o) | inr o ↦ rw (e, o) ]

    pub promote_cases :
        (now : ℕ)
        → IsValid db
        → (InObservedPool → promote fl now a rules db ≡ (crowned now, true))
          × (¬ InObservedPool → promote fl now a rules db ≡ (db, false))
    promote_cases now v =
        let e = promote_by_writes now v in (λ o. ground (arith, e, o), λ n. ground (arith, e, n))

  -- Every king was crowned before `now`.
  abbrev pub Before : ℕ → List King → Type 0
  Before now [] = Unit
  Before now (k ∷ ks) = (k.king_from < now) × Before now ks

  latest_king-append :
      (now : ℕ) (id : String) (ks : List King)
      → Before now ks
      → latest_king (ks ++ record { king_id = id; king_from = now } ∷ [])
        ≡ some (record { king_id = id; king_from = now })
  unfolding latest_king
  latest_king-append now id [] h = refl
  latest_king-append now id (k ∷ ks) h =
      rw (latest_king-append now id ks h.1) (rw (lt→ltb _ _ h.0) refl)

  -- A new king whose coronation is the latest reigns.
  pub reigning_king-insert_king :
      (now : ℕ) (id : String) (ks : List King)
      → Before now ks
      → contains id (king_ids ks) ≡ false
      → reigning_king (insert_king now id ks) ≡ some id
  unfolding reigning_king
  reigning_king-insert_king now id ks h e =
      rw e (rw (latest_king-append now id ks h, reigning_king))
