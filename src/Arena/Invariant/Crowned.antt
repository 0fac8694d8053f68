-- ===== src/Arena/Invariant/Crowned.antt =====
-- The tables after a promotion, row by row.
use ninja_validator.Base.{
  ℕ, ◌≡◌, refl, ap, ◌∙◌, String, true, false, List, [], ◌∷◌, ◌++◌, arith, inl, inr, Bool-cases,
  if◌then◌else◌, contains, ◌==◌, string_key,
}
use ninja_validator.Floats.{Floats}
use ninja_validator.Duel.Snapshot.{ActiveChallenge, PoolType, pool_int}
use ninja_validator.Arena.Tables.{
  King, Challenge, ChallengeStatus, DuelOutcome, Arena, DuelResolution,
}
use ninja_validator.Arena.Queries.{challenger_ids}
use ninja_validator.Arena.Writes.{set_status, Rules, resolution_row, insert_king, promote}
use ninja_validator.Arena.Writes.Status.{Unique}
use ninja_validator.Arena.Writes.Rank.{status_rank}
use ninja_validator.Arena.Invariant.{IsValid, InObservedPool, observed, crowned, promote_by_writes}

-- The challenges, with the one of this submission closed.
abbrev pub retired : String → List Challenge → List Challenge
retired id [] = []
retired id (c ∷ cs) =
    (if c.challenger_submission_id == id then record c { status = ChallengeStatus.closed } else c)
    ∷ retired id cs

-- The kings with this one, whose row is a new last one unless there is one already.
abbrev pub enthroned : ℕ → String → List King → List King
enthroned now id [] = record { king_id = id; king_from = now } ∷ []
enthroned now id (k ∷ ks) = if k.king_id == id then k ∷ ks else k ∷ enthroned now id ks

insert_king-enthroned :
    (now : ℕ) (id : String) (ks : List King) → insert_king now id ks ≡ enthroned now id ks
insert_king-enthroned now id [] = refl
insert_king-enthroned now id (k ∷ ks) = ground (arith, insert_king-enthroned now id ks)

retired_of_absent :
    (id : String) (cs : List Challenge)
    → contains id (challenger_ids cs) ≡ false
    → retired id cs ≡ cs
retired_of_absent id [] h = refl
retired_of_absent id (c ∷ cs) h = ground (arith, retired_of_absent id cs)

set_status_of_other :
    (id : String) (pool : PoolType) (cs : List Challenge)
    → contains id (challenger_ids cs) ≡ false
    → (set_status id pool ChallengeStatus.closed cs).0 ≡ cs
unfolding set_status
set_status_of_other id pool [] h = refl
set_status_of_other id pool (c ∷ cs) h = ground (arith, set_status_of_other id pool cs)

-- Where the challenge is in the pool, the guarded update closes it alone.
set_status-retired :
    (id : String) (pool : PoolType) (cs : List Challenge)
    → Unique cs
    → status_rank id cs ≡ pool_int pool
    → (set_status id pool ChallengeStatus.closed cs).0 ≡ retired id cs
unfolding set_status
set_status-retired id pool [] u h = refl
set_status-retired id pool (c ∷ cs) u h = ground (
  arith,
  set_status-retired id pool cs u.1,
  set_status_of_other id pool cs,
  retired_of_absent id cs,
)

module _ (fl : Floats) (a : ActiveChallenge fl) (rules : Rules fl) (db : Arena fl) where
  abbrev id : String
  id = a.challenger_submission_id

  -- The tables with the challenge closed, its verdict, and its submission as a king.
  abbrev pub promoted : ℕ → DuelResolution fl → Arena fl
  promoted now row = record db {
    challenges = retired id db.challenges;
    resolutions = db.resolutions ++ row ∷ [];
    kings = enthroned now id db.kings;
  }

  abbrev verdict : DuelResolution fl
  verdict = resolution_row fl a DuelOutcome.challenger_won rules

  crowned-promoted :
      (now : ℕ)
      → IsValid fl db
      → InObservedPool fl a rules db
      → crowned fl a rules db now ≡ promoted now verdict
  crowned-promoted now v e =
      rw
        (
          set_status-retired id a.pool db.challenges v.unique e,
          insert_king-enthroned now id db.kings,
        )
        refl

  -- On valid tables a promotion goes through just when the challenge is still in the observed pool. Then its row alone of the
  -- challenges is closed, a verdict that the challenger won this pool is added, and the challenger is added to the kings as the
  -- last row unless it is a king already; otherwise no table changes.
  pub promote_exact :
      (now : ℕ)
      → IsValid fl db
      → (row : DuelResolution fl) × (row.challenger_submission_id ≡ id)
        × (row.pool_type ≡ a.pool)
        × (row.outcome ≡ DuelOutcome.challenger_won)
        × (promote fl now a rules db
            ≡ (if observed fl a rules db then (promoted now row, true) else (db, false)))
  unfolding resolution_row
  promote_exact now v =
      let e = promote_by_writes fl a rules db now v in
      (
        verdict,
        refl,
        refl,
        refl,
        elim (Bool-cases (observed fl a rules db)) [
          | inl o ↦ e ∙ rw o (ap (λ x. (x, true)) (crowned-promoted now v (ground arith)))
          | inr o ↦ e ∙ rw o refl
        ],
      )
