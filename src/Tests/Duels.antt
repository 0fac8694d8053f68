-- ===== src/Tests/Duels.antt =====
-- Runs of the duel rules and of the token bonus.
use ninja_validator.Base.{◌≡◌, ◌≢◌, ◌↔◌, refl, true, false, none, some}
use ninja_validator.Duel.Snapshot.{
  pool_one, pool_two, round_wins, ActiveChallenge, ChallengeSnapshot,
}
use ninja_validator.Duel.Actions.{
  Action, nothing, duel_in_progress, advance_pool, promote, king_defended, close_challenge,
}
use ninja_validator.Duel.Decide.{
  decide, decide_with_round_wins_scoring_method, decide_with_mean_scoring_method,
}
use ninja_validator.Duel.Decide.RoundWins.{WinsAlways, LosesAlways, early_stop_exact, judge_rounds}
use ninja_validator.Duel.Decide.Branches.{Justified, decide-Justified}
use ninja_validator.Tests.{hundredths, tally_with, challenge_with}

-- Three of five rounds are won and one is lost: no result of the last one changes the verdict.
abbrev ahead : ActiveChallenge hundredths
ahead = challenge_with pool_one 5 (tally_with 3 1 0)

ahead_advances : decide_with_round_wins_scoring_method hundredths ahead 0 ≡ advance_pool ahead
unfolding decide_with_round_wins_scoring_method
ahead_advances = refl

abbrev advance_ahead : Action hundredths
advance_ahead = advance_pool ahead

early_stop_exact_example :
    ((advance_ahead ≡ advance_pool ahead) ↔ WinsAlways 3 1 1 0)
    × ((advance_ahead ≡ close_challenge ahead king_defended) ↔ LosesAlways 3 1 1 0)
    × ((advance_ahead ≡ nothing duel_in_progress)
        ↔ ((¬ WinsAlways 3 1 1 0) × (¬ LosesAlways 3 1 1 0)))
unfolding decide_with_round_wins_scoring_method
early_stop_exact_example = early_stop_exact hundredths ahead 0

-- Ahead, and the king has taken the last round too.
abbrev full : ActiveChallenge hundredths
full = judge_rounds hundredths ahead 0 1 0

ahead_decides : decide_with_round_wins_scoring_method hundredths ahead 0 ≢ nothing duel_in_progress
ahead_decides = λ e. cc (ahead_advances, e)

-- The snapshot that shows `ahead`.
abbrev running : ChallengeSnapshot hundredths
running = record {
  reigning_king_submission_id = some "k";
  active_challenge = some ahead;
  next_challenger_submission_id = none;
  task_pools_ready = true;
}

decide-Justified_example : Justified hundredths false running (advance_pool ahead)
unfolding decide
decide-Justified_example = decide-Justified hundredths round_wins 0 10 false running

-- Pool two after its last round, by the mean: a delta of 20 and a boost of 5 against a margin of 10.
abbrev ended : ActiveChallenge hundredths
ended = challenge_with pool_two 4 (tally_with 1 2 1)

ended_promotes : decide_with_mean_scoring_method hundredths ended 10 ≡ promote ended
unfolding decide_with_mean_scoring_method
ended_promotes = refl
