-- ===== src/Duel/Decide.antt =====
-- tau/duel/decide.py.
pub mod RoundWins
pub mod Branches
use ninja_validator.Base.{ℕ, String, Bool, not, none, some, ltb, eqb, if◌then◌else◌}
use ninja_validator.Floats.{Floats}
use ninja_validator.Duel.Snapshot.{
  DuelScoringMethod, round_wins, mean, pool_int, ActiveChallenge, ChallengeSnapshot,
  combined_score_delta, remaining,
}
use ninja_validator.Duel.Actions.{
  Action, nothing, open_challenge, advance_pool, promote, close_challenge, king_defended,
  challenger_deregistered, no_king, new_challenges_paused, pools_not_ready, no_challenger,
  duel_in_progress,
}
use ninja_validator.Duel.Predicates.{
  challenger_wins_by_mean_score, challenger_is_unbeatable, challenger_cannot_catch,
}

module _ (fl : Floats) where
  open fl use {Float}

  unfoldable pub decide_with_round_wins_scoring_method : ActiveChallenge fl → ℕ → Action fl
  unfolding challenger_is_unbeatable challenger_cannot_catch
  decide_with_round_wins_scoring_method active round_win_margin =
      let left = remaining fl active in
      if challenger_is_unbeatable active.tally.wins active.tally.losses left round_win_margin
      then (if eqb (pool_int active.pool) 1 then advance_pool active else promote active)
      else if challenger_cannot_catch active.tally.wins active.tally.losses left round_win_margin
      then close_challenge active king_defended
      else nothing duel_in_progress

  unfoldable pub decide_with_mean_scoring_method : ActiveChallenge fl → Float → Action fl
  unfolding challenger_wins_by_mean_score
  decide_with_mean_scoring_method active mean_score_margin =
      if ltb 0 (remaining fl active)
      then nothing duel_in_progress
      else if not (
          challenger_wins_by_mean_score fl (combined_score_delta fl active.tally)
            active.tally.score_mean_rounds mean_score_margin)
      then close_challenge active king_defended
      else if eqb (pool_int active.pool) 1
      then advance_pool active
      else promote active

  -- the `match` on the scoring method
  unfoldable pub decide_by_method : DuelScoringMethod → ℕ → Float → ActiveChallenge fl → Action fl
  unfolding decide_with_round_wins_scoring_method decide_with_mean_scoring_method
  decide_by_method round_wins margin mean_margin active =
      decide_with_round_wins_scoring_method active margin
  decide_by_method mean margin mean_margin active =
      decide_with_mean_scoring_method active mean_margin

  -- no challenge is active: open one, unless something is missing
  unfoldable pub decide_idle : String → ChallengeSnapshot fl → Bool → Action fl
  decide_idle king snapshot paused =
      if paused
      then nothing new_challenges_paused
      else if not snapshot.task_pools_ready
      then nothing pools_not_ready
      else elim snapshot.next_challenger_submission_id [
        | none ↦ nothing no_challenger
        | some challenger ↦ open_challenge king challenger
      ]

  unfoldable pub decide_active : DuelScoringMethod → ℕ → Float → ActiveChallenge fl → Action fl
  unfolding decide_by_method
  decide_active method margin mean_margin active =
      if not active.challenger_registered
      then close_challenge active challenger_deregistered
      else decide_by_method method margin mean_margin active

  unfoldable pub decide :
      DuelScoringMethod → ℕ → Float → (paused : Bool) → ChallengeSnapshot fl → Action fl
  unfolding decide_idle decide_active
  decide method margin mean_margin paused snapshot = elim snapshot.reigning_king_submission_id [
    | none ↦ nothing no_king
    | some king ↦ elim snapshot.active_challenge [
      | none ↦ decide_idle king snapshot paused
      | some active ↦ decide_active method margin mean_margin active
    ]
  ]
