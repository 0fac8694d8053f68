-- ===== src/Resolver/Run/Uninterrupted.antt =====
-- A tick that no one interrupts always applies what it decided.
use ninja_validator.Base.{
  ℕ, ◌≡◌, ◌≢◌, String, Bool, true, false, Option, some, List, [], ◌∷◌, arith, inl, inr,
  Option-cases, contains, string_key, subst,
}
use ninja_validator.Floats.{Floats}
use ninja_validator.Duel.Snapshot.{PoolType, ActiveChallenge, ChallengeSnapshot, pool_int}
use ninja_validator.Duel.Actions.{Action, king_defended, challenger_deregistered}
use ninja_validator.Duel.Decide.Branches.{Justified, decide-Justified}
use ninja_validator.Duel.Decide.{decide}
use ninja_validator.Arena.Snapshot.{snapshot}
use ninja_validator.Arena.Writes.{resolve, open_challenge, advance_pool, close_challenge, promote}
use ninja_validator.Arena.Invariant.{IsValid, InObservedPool, resolve_exact, promote_by_writes}
use ninja_validator.Arena.Queries.Eligible.{called}
use ninja_validator.Resolver.Tick.{
  DuelResolverConfig, token_efficiency, rules, apply, next_action, action,
}
use ninja_validator.Arena.Tables.{ChallengeStatus, DuelOutcome, Arena, Challenge}
use ninja_validator.Arena.Queries.{
  active_row, challenger_ids, next_challenger, PoolTargets, reigning_king, current_metagraph,
}
use ninja_validator.Arena.Writes.Status.{Unique}
use ninja_validator.Arena.Writes.Rank.{status_rank}

active_row-contains :
    (king id : String) (pool : PoolType) (cs : List Challenge)
    → active_row king cs ≡ some (id, pool)
    → contains id (challenger_ids cs) ≡ true
unfolding active_row
active_row-contains king id pool [] h = cc
active_row-contains king id pool (c ∷ cs) h = ground (arith, active_row-contains king id pool cs)

pub status_rank_of_row :
    (king id : String) (pool : PoolType) (cs : List Challenge)
    → Unique cs
    → active_row king cs ≡ some (id, pool)
    → status_rank id cs ≡ pool_int pool
unfolding active_row
status_rank_of_row king id pool [] u h = cc
status_rank_of_row king id pool (c ∷ cs) u h =
    ground (arith, status_rank_of_row king id pool cs u.1, active_row-contains king id pool cs)

module _ (fl : Floats) where
  module _ (c : DuelResolverConfig fl) (targets : PoolTargets) (paused : Bool)
      (publisher : Option (String → Bool)) (now : ℕ) (db : Arena fl) where
    snapshot_active :
        (s : ChallengeSnapshot fl) (a : ActiveChallenge fl)
        → snapshot fl db targets (token_efficiency fl c) ≡ some s
        → s.active_challenge ≡ some a
        → (king : String) × (active_row king db.challenges
            ≡ some (a.challenger_submission_id, a.pool))
    unfolding snapshot
    snapshot_active s a h e = elim (Option-cases (reigning_king db.kings)) [
      | inl n ↦ absurd (ground arith)
      | inr (king, k) ↦ (king, ground arith)
    ]

    snapshot_next :
        (s : ChallengeSnapshot fl) (challenger : String)
        → snapshot fl db targets (token_efficiency fl c) ≡ some s
        → s.next_challenger_submission_id ≡ some challenger
        → next_challenger (current_metagraph db.registrations) db.kings db.challenges db.submissions
          ≡ some challenger
    unfolding snapshot
    snapshot_next s challenger h e = ground arith

    still_observed :
        (s : ChallengeSnapshot fl) (a : ActiveChallenge fl)
        → IsValid fl db
        → snapshot fl db targets (token_efficiency fl c) ≡ some s
        → s.active_challenge ≡ some a
        → InObservedPool fl a (rules fl c) db
    still_observed s a v h e =
        let (king, row) = snapshot_active s a h e in
        status_rank_of_row king a.challenger_submission_id a.pool db.challenges v.unique row

    resolve_done :
        (a : ActiveChallenge fl) (new : ChallengeStatus) (outcome : DuelOutcome)
        → IsValid fl db
        → InObservedPool fl a (rules fl c) db
        → (resolve fl new a outcome (rules fl c) db).1 ≡ true
    resolve_done a new outcome v e =
        rw (resolve_exact fl a (rules fl c) db new outcome v) (ground (arith, e))

    promote_done :
        (a : ActiveChallenge fl)
        → IsValid fl db
        → InObservedPool fl a (rules fl c) db
        → (promote fl now a (rules fl c) db).1 ≡ true
    promote_done a v e = rw (promote_by_writes fl a (rules fl c) db now v) (ground (arith, e))

    open_challenge_done :
        (s : ChallengeSnapshot fl) (king challenger : String)
        → snapshot fl db targets (token_efficiency fl c) ≡ some s
        → s.next_challenger_submission_id ≡ some challenger
        → (open_challenge fl king challenger db).1 ≡ true
    unfolding open_challenge
    open_challenge_done s king challenger h n =
        let (t, mem, same, may, least) =
          called (current_metagraph db.registrations) db.kings db.challenges db.submissions
            challenger (snapshot_next s challenger h n) in
        let new : contains challenger (challenger_ids db.challenges) ≡ false =
          rw (← same) may.no_challenger in
        rw new

    applied_of_Justified :
        (s : ChallengeSnapshot fl) (act : Action fl)
        → IsValid fl db
        → snapshot fl db targets (token_efficiency fl c) ≡ some s
        → Justified fl paused s act
        → (apply fl c publisher now act db).1 ≢ action act false
    unfolding apply advance_pool close_challenge
    applied_of_Justified s (Action.nothing r) v h j = λ q. ground arith
    applied_of_Justified s (Action.open_challenge king ch) v h (p, k, e, r, n) =
        λ q. ground (arith, open_challenge_done s king ch h n)
    applied_of_Justified s (Action.advance_pool a) v h ((k, e, r), p) = λ q. ground (
      arith,
      resolve_done a ChallengeStatus.pool_two DuelOutcome.challenger_won v
          (still_observed s a v h e),
    )
    applied_of_Justified s (Action.promote a) v h ((k, e, r), p) =
        λ q. ground (arith, promote_done a v (still_observed s a v h e))
    applied_of_Justified s (Action.close_challenge a king_defended) v h (k, e, r) = λ q. ground (
      arith,
      resolve_done a ChallengeStatus.closed DuelOutcome.king_won v (still_observed s a v h e),
    )
    applied_of_Justified s (Action.close_challenge a challenger_deregistered) v h (e, r) = λ q.
        ground (
          arith,
          resolve_done a ChallengeStatus.closed DuelOutcome.challenger_deregistered v
              (still_observed s a v h e),
        )

    -- If no one writes between a tick's read and its write, what it decided on is never skipped: the
    -- report is an applied action, an idle reason, or a publication that failed.
    pub uninterrupted_applies :
        (act : Action fl)
        → IsValid fl db
        → next_action fl c targets paused db ≡ some act
        → (apply fl c publisher now act db).1 ≢ action act false
    unfolding next_action
    uninterrupted_applies act v h =
        elim (Option-cases (snapshot fl db targets (token_efficiency fl c))) [
          | inl e ↦ absurd (ground arith)
          | inr (s, e) ↦
              let decided : decide fl c.scoring_method c.round_win_margin c.mean_score_margin paused
                    s
                  ≡ act =
                ground arith in
              applied_of_Justified s act v e (
                subst (Justified fl paused s) decided (
                  decide-Justified fl c.scoring_method c.round_win_margin c.mean_score_margin paused
                    s))
        ]
