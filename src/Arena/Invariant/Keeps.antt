-- ===== src/Arena/Invariant/Keeps.antt =====
-- Each write of the resolver keeps the invariant.
use ninja_validator.Base.{
  ℕ, ◌≤◌, ◌<◌, ◌≡◌, String, arith, inl, inr, some, Bool-cases, contains, string_key,
}
use native.Mathlib.Decide.{ℕ_discrete}
use ninja_validator.Floats.{Floats}
use ninja_validator.Duel.Snapshot.{PoolType, ActiveChallenge, pool_int, pool_one}
use ninja_validator.Arena.Tables.{Challenge, ChallengeStatus, DuelOutcome, Arena}
use ninja_validator.Arena.Queries.{reigning_king, challenger_ids}
use ninja_validator.Arena.Writes.{Rules, resolution_row, resolve, promote, open_challenge}
use ninja_validator.Arena.Writes.Status.{
  active_count, active_count-close, active_count-advance, active_count-append, Faces-set_status,
  Faces-append, Faces-of_none, Unique-set_status, Unique-append,
}
use ninja_validator.Arena.Writes.Rank.{
  rank, status_rank-append, status_rank-set_status_mono, status_rank-set_status, set_status_iff,
  Settled-mono, Settled-append,
}
use ninja_validator.Arena.Invariant.{IsValid, InObservedPool, moved, resolve_cases, promote_cases}

pool_int_lt : (p : PoolType) → pool_int p < 3
pool_int_lt p = ground arith

module _ (fl : Floats) where
  module _ (a : ActiveChallenge fl) (rules : Rules fl) (db : Arena fl) where
    -- `db` with the challenge moved on, and what is left to show of the active ones.
    moved-IsValid :
        (new : ChallengeStatus) (outcome : DuelOutcome)
        → IsValid fl db
        → InObservedPool fl a rules db
        → pool_int a.pool < rank new
        → active_count (moved fl a rules db new outcome).challenges ≤ 1
        → IsValid fl (moved fl a rules db new outcome)
    unfolding resolution_row
    moved-IsValid new outcome v e lt one =
        let id = a.challenger_submission_id in
        let done = (set_status_iff id a.pool new db.challenges v.unique).1 e in
        let there = status_rank-set_status id a.pool new db.challenges v.unique done in
        record {
          one_active = one;
          faces = Faces-set_status id a.pool new (reigning_king db.kings) db.challenges v.faces;
          unique = Unique-set_status id a.pool new db.challenges v.unique;
          settled =
              Settled-append fl _ db.resolutions (resolution_row fl a outcome rules)
                (Settled-mono fl db.challenges _ db.resolutions
                  (λ i.
                    status_rank-set_status_mono id a.pool new i db.challenges (omega (arith, lt)))
                  v.settled)
                (omega (arith, there, lt));
        }

    close_one :
        (outcome : DuelOutcome)
        → IsValid fl db
        → active_count (moved fl a rules db ChallengeStatus.closed outcome).challenges ≤ 1
    close_one outcome v =
        omega
          (arith, active_count-close a.challenger_submission_id a.pool db.challenges, v.one_active)

    pub close-IsValid :
        (outcome : DuelOutcome)
        → IsValid fl db
        → IsValid fl (resolve fl ChallengeStatus.closed a outcome rules db).0
    close-IsValid outcome v =
        let (to, from) = resolve_cases fl a rules db ChallengeStatus.closed outcome v in
        elim (ℕ_discrete _ _) [
          | yes e ↦ rw (to e) (
              moved-IsValid ChallengeStatus.closed outcome v e (pool_int_lt a.pool)
                (close_one outcome v))
          | no n ↦ rw (from n) v
        ]

    -- Advancing keeps the invariant for a challenge that was seen in pool one.
    pub advance-IsValid :
        IsValid fl db
        → a.pool ≡ pool_one
        → IsValid fl (resolve fl ChallengeStatus.pool_two a DuelOutcome.challenger_won rules db).0
    advance-IsValid v p =
        let won = DuelOutcome.challenger_won in
        let (to, from) = resolve_cases fl a rules db ChallengeStatus.pool_two won v in
        elim (ℕ_discrete _ _) [
          | yes e ↦ rw (to e) (
              moved-IsValid ChallengeStatus.pool_two won v e (rw p (omega arith)) (
                rw (active_count-advance a.challenger_submission_id a.pool db.challenges)
                  v.one_active))
          | no n ↦ rw (from n) v
        ]

    none_left :
        IsValid fl db
        → InObservedPool fl a rules db
        → active_count
            (moved fl a rules db ChallengeStatus.closed DuelOutcome.challenger_won).challenges
          ≡ 0
    none_left v e =
        let id = a.challenger_submission_id in
        let done = (set_status_iff id a.pool ChallengeStatus.closed db.challenges v.unique).1 e in
        omega (arith, (active_count-close id a.pool db.challenges).1 done, v.one_active)

    pub promote-IsValid : (now : ℕ) → IsValid fl db → IsValid fl (promote fl now a rules db).0
    promote-IsValid now v =
        let won = DuelOutcome.challenger_won in
        let (to, from) = promote_cases fl a rules db now v in
        elim (ℕ_discrete _ _) [
          | yes e ↦
              let w =
                moved-IsValid ChallengeStatus.closed won v e (pool_int_lt a.pool)
                  (close_one won v) in
              rw (to e) (record {
                one_active = w.one_active;
                faces = Faces-of_none _ _ (none_left v e);
                unique = w.unique;
                settled = w.settled;
              })
          | no n ↦ rw (from n) v
        ]

  -- A challenge may be opened against the reigning king while none is active.
  pub open_challenge-IsValid :
      (king challenger : String) (db : Arena fl)
      → IsValid fl db
      → reigning_king db.kings ≡ some king
      → active_count db.challenges ≡ 0
      → IsValid fl (open_challenge fl king challenger db).0
  unfolding open_challenge
  open_challenge-IsValid king challenger db v k idle =
      let row : Challenge = record {
        challenger_submission_id = challenger;
        king_id = king;
        status = ChallengeStatus.pool_one;
      } in
      elim (Bool-cases (contains challenger (challenger_ids db.challenges))) [
        | inl known ↦ rw known v
        | inr new ↦ rw new (record {
          one_active = omega (arith, active_count-append db.challenges row, idle);
          faces = Faces-append (reigning_king db.kings) db.challenges row v.faces k;
          unique = Unique-append db.challenges row v.unique new;
          settled =
              Settled-mono fl db.challenges _ db.resolutions
                (λ i. status_rank-append i db.challenges row) v.settled;
        })
      ]
