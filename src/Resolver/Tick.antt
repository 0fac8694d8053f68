-- ===== src/Resolver/Tick.antt =====
-- tau/workers/duel_resolver/pipeline.py, with `close_outcome` of telemetry.py and the settings of
-- config.py: one tick reads a snapshot, decides, and applies the action. The GitHub publisher is not
-- modelled: it is a function that tells whether publishing a submission went through.
use ninja_validator.Base.{ℕ, String, Bool, true, not, ◌&&◌, Option, none, some, if◌then◌else◌}
use ninja_validator.Floats.{Floats}
use ninja_validator.Duel.Snapshot.{DuelScoringMethod, is_mean}
use ninja_validator.Duel.Actions.{Action, CloseReason, WaitReason, nothing}
use ninja_validator.Duel.Decide.{decide}
use ninja_validator.Duel.Tokens.{TokenEfficiencyConfig}
use ninja_validator.Arena.Tables.{Arena, DuelOutcome}
use ninja_validator.Arena.Queries.{PoolTargets}
use ninja_validator.Arena.Snapshot.{snapshot}
use ninja_validator.Arena.Writes.{Rules, open_challenge, advance_pool, close_challenge, promote}

-- `close_outcome`
abbrev pub close_outcome : CloseReason → DuelOutcome
close_outcome CloseReason.king_defended = DuelOutcome.king_won
close_outcome CloseReason.challenger_deregistered = DuelOutcome.challenger_deregistered

module _ (fl : Floats) where
  open fl use {Float}

  -- The settings of `DuelResolverConfig` that a tick reads.
  pub record DuelResolverConfig : Type 0 where
    pub scoring_method : DuelScoringMethod
    pub round_win_margin : ℕ
    pub mean_score_margin : Float
    pub token_bonus_enabled : Bool
    pub token_score_tolerance : Float
    pub token_min_score : Float
    pub token_bonus_multiplier : Float
    pub promotion_publish_required : Bool

  -- `DuelResolverConfig.token_efficiency`
  unfoldable pub token_efficiency : DuelResolverConfig → TokenEfficiencyConfig fl
  token_efficiency c = record {
    enabled = c.token_bonus_enabled && is_mean c.scoring_method;
    score_tolerance = c.token_score_tolerance;
    min_score = c.token_min_score;
    bonus_multiplier = c.token_bonus_multiplier;
  }

  abbrev pub rules : DuelResolverConfig → Rules fl
  rules c = record {
    scoring_method = c.scoring_method;
    round_win_margin = c.round_win_margin;
    mean_score_margin = c.mean_score_margin;
    token_efficiency = token_efficiency c;
  }

  -- What the tick log is told.
  pub data Report : Type 0 where
    idle : WaitReason → Report
    publish_failed : String → Report
    action : Action fl → (applied : Bool) → Report

  -- `_publish_promoted_submission`: whether the promotion may be written. The publisher answers
  -- false where it raises.
  unfoldable pub may_promote : DuelResolverConfig → Option (String → Bool) → String → Bool
  may_promote c none id = true
  may_promote c (some publish) id = if publish id then true else not c.promotion_publish_required

  -- `_apply`
  unfoldable pub apply :
      DuelResolverConfig → Option (String → Bool) → ℕ → Action fl → Arena fl → Arena fl × Report
  unfolding may_promote
  apply c publisher now (nothing reason) db = (db, idle reason)
  apply c publisher now (Action.open_challenge king challenger) db =
      let (db', applied) = open_challenge fl king challenger db in
      (db', action (Action.open_challenge king challenger) applied)
  apply c publisher now (Action.advance_pool a) db =
      let (db', applied) = advance_pool fl a (rules c) db in
      (db', action (Action.advance_pool a) applied)
  apply c publisher now (Action.promote a) db =
      let (db', applied) = promote fl now a (rules c) db in
      if not (may_promote c publisher a.challenger_submission_id)
      then (db, publish_failed a.challenger_submission_id)
      else (db', action (Action.promote a) applied)
  apply c publisher now (Action.close_challenge a reason) db =
      let (db', applied) = close_challenge fl a (close_outcome reason) (rules c) db in
      (db', action (Action.close_challenge a reason) applied)

  -- The snapshot and the decision of one tick; `none` is an exception, which ends the tick.
  unfoldable pub next_action :
      DuelResolverConfig → PoolTargets → (paused : Bool) → Arena fl → Option (Action fl)
  next_action c targets paused db = elim (snapshot fl db targets (token_efficiency c)) [
    | none ↦ none
    | some s ↦ some (decide fl c.scoring_method c.round_win_margin c.mean_score_margin paused s)
  ]
