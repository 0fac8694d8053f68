-- ===== src/Resolver/Run/Progress.antt =====
-- No challenge ever goes back: a closed one stays closed, and a submission that had its go has no
-- other.
use ninja_validator.Base.{ℕ, ◌≤◌, String, Bool, Option, arith, inl, inr, Bool-cases}
use native.Mathlib.Nat.{le_trans, le_refl}
use ninja_validator.Floats.{Floats}
use ninja_validator.Duel.Snapshot.{PoolType, ActiveChallenge, pool_int}
use ninja_validator.Duel.Actions.{Action}
use ninja_validator.Arena.Tables.{Arena, ChallengeStatus, DuelOutcome}
use ninja_validator.Arena.Queries.{PoolTargets}
use ninja_validator.Arena.Writes.{
  Rules, resolve, open_challenge, advance_pool, close_challenge, promote,
}
use ninja_validator.Arena.Writes.Rank.{
  rank, status_rank, status_rank-append, status_rank-set_status_mono,
}
use ninja_validator.Resolver.Tick.{DuelResolverConfig, rules, close_outcome, may_promote, apply}
use ninja_validator.Resolver.Run.{System, Step, others, read, write, Reach, here, next}

pool_int_le : (p : PoolType) → pool_int p ≤ 2
pool_int_le p = ground arith

module _ (fl : Floats) (i : String) where
  abbrev pub rank_in : Arena fl → ℕ
  rank_in db = status_rank i db.challenges

  resolve-rank :
      (new : ChallengeStatus) (a : ActiveChallenge fl) (outcome : DuelOutcome) (r : Rules fl)
      (db : Arena fl)
      → 2 ≤ rank new
      → rank_in db ≤ rank_in (resolve fl new a outcome r db).0
  unfolding resolve
  resolve-rank new a outcome r db h = ground (
    arith,
    status_rank-set_status_mono a.challenger_submission_id a.pool new i db.challenges,
    pool_int_le a.pool,
  )

  open_challenge-rank :
      (king challenger : String) (db : Arena fl)
      → rank_in db ≤ rank_in (open_challenge fl king challenger db).0
  unfolding open_challenge
  open_challenge-rank king challenger db = ground (
    arith,
    status_rank-append i db.challenges (record {
      challenger_submission_id = challenger;
      king_id = king;
      status = ChallengeStatus.pool_one;
    }),
  )

  promote-rank :
      (now : ℕ) (a : ActiveChallenge fl) (r : Rules fl) (db : Arena fl)
      → rank_in db ≤ rank_in (promote fl now a r db).0
  unfolding promote
  promote-rank now a r db =
      ground
        (arith, resolve-rank ChallengeStatus.closed a DuelOutcome.challenger_won r db (omega arith))

  apply-rank :
      (c : DuelResolverConfig fl) (publisher : Option (String → Bool)) (now : ℕ) (act : Action fl)
      (db : Arena fl)
      → rank_in db ≤ rank_in (apply fl c publisher now act db).0
  unfolding apply advance_pool close_challenge
  apply-rank c publisher now (Action.nothing r) db = le_refl _
  apply-rank c publisher now (Action.open_challenge king ch) db = open_challenge-rank king ch db
  apply-rank c publisher now (Action.advance_pool a) db =
      resolve-rank ChallengeStatus.pool_two a DuelOutcome.challenger_won (rules fl c) db
        (omega arith)
  apply-rank c publisher now (Action.promote a) db =
      elim (Bool-cases (may_promote fl c publisher a.challenger_submission_id)) [
        | inl go ↦ rw go (promote-rank now a (rules fl c) db)
        | inr stay ↦ rw stay (le_refl _)
      ]
  apply-rank c publisher now (Action.close_challenge a r) db =
      resolve-rank ChallengeStatus.closed a (close_outcome r) (rules fl c) db (omega arith)

  Step-rank :
      (c : DuelResolverConfig fl) (targets : PoolTargets) (s u : System fl)
      → Step fl c targets s u
      → rank_in s.db ≤ rank_in u.db
  Step-rank c targets s u (others db' same e) = rw (e, same.challenges) (le_refl _)
  Step-rank c targets s u (read paused e) = rw e (le_refl _)
  Step-rank c targets s u (write publisher now act p e) = rw e (apply-rank c publisher now act s.db)

  -- Along any run a submission's challenge only moves on: none, pool one, pool two, closed. So a
  -- closed challenge is never reopened, and a challenge, once opened, is never removed.
  pub Reach-rank :
      (c : DuelResolverConfig fl) (targets : PoolTargets) {s u : System fl}
      → Reach fl c targets s u
      → rank_in s.db ≤ rank_in u.db
  Reach-rank c targets here = le_refl _
  Reach-rank c targets (next {t = t} {u = u} r st) =
      le_trans (Reach-rank c targets r) (Step-rank c targets t u st)
