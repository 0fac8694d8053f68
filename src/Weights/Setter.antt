-- ===== src/Weights/Setter.antt =====
-- `step` of tau/workers/weight_setter/loop.py with `recent_kings` of tau/db/weight_setter.py. The
-- chain is what `step` reads of it, and a parameter `submit` that tells whether it accepted a vector.
-- Messages are left out, but for the reason of a skip.
pub mod Outcomes
pub mod Recent
use ninja_validator.Base.{
  ℕ, ◌-◌, String, Bool, true, false, not, Option, none, some, List, [], ◌∷◌, ltb, eqb, ◌==◌,
  string_key, length, take, if◌then◌else◌,
}
use ninja_validator.Arena.Tables.{King, Submission}
use ninja_validator.Weights.Compute.{
  RecentKing, MetagraphView, SkipReason, WeightPlan, compute_weights,
}
use ninja_validator.Weights.Schedule.{SetDecision, should_set}

pub record SubnetParams : Type 0 where
  pub uid : ℕ
  pub tempo : ℕ
  pub weights_rate_limit : ℕ

pub record PollState : Type 0 where
  pub current_block : ℕ
  pub blocks_since_last_update : ℕ

-- The settings of `WeightSetterConfig` that a step reads.
pub record WeightSetterConfig : Type 0 where
  pub netuid : ℕ
  pub window : ℕ
  pub burn_uid : ℕ
  pub set_margin : ℕ
  pub burn_mode : Bool

-- `order by king_from desc`, the first of two equals first.
unfoldable pub place_king : King → List King → List King
place_king k [] = k ∷ []
place_king k (x ∷ xs) =
    let rest = place_king k xs in if ltb k.king_from x.king_from then x ∷ rest else k ∷ x ∷ xs

unfoldable pub latest_first : List King → List King
latest_first [] = []
latest_first (k ∷ ks) = place_king k (latest_first ks)

-- The hotkey of a submission; its id is the primary key.
unfoldable pub hotkey_of : String → List Submission → Option String
hotkey_of id [] = none
hotkey_of id (s ∷ ss) =
    let rest = hotkey_of id ss in if s.submission_id == id then some s.hotkey else rest

-- The rows of the join.
unfoldable pub king_rows : List Submission → List King → List RecentKing
king_rows submissions [] = []
king_rows submissions (k ∷ ks) = elim (hotkey_of k.king_id submissions) [
  | none ↦ king_rows submissions ks
  | some hotkey ↦ record { king_id = k.king_id; hotkey = hotkey } ∷ king_rows submissions ks
]

-- `recent_kings`
unfoldable pub recent_kings : ℕ → List King → List Submission → List RecentKing
recent_kings window kings submissions =
    if eqb window 0 then [] else take window (king_rows submissions (latest_first kings))

pub data Action : Type 0 where
  wait skip set failed : Action

pub record StepResult : Type 0 where
  pub action : Action
  pub reason : Option SkipReason
  pub epoch_blocks : Option ℕ
  pub rate_off_blocks : Option ℕ
  pub next_try_block : Option ℕ
  pub next_try_blocks : Option ℕ
  pub block : Option ℕ
  pub num_kings : Option ℕ
  pub plan : Option WeightPlan

abbrev waiting : SetDecision → ℕ → StepResult
waiting d block = record {
  action = wait;
  reason = none;
  epoch_blocks = some d.epoch_blocks;
  rate_off_blocks = some d.rate_off_blocks;
  next_try_block = some d.next_try_block;
  next_try_blocks = some (d.next_try_block - block);
  block = none;
  num_kings = none;
  plan = none;
}

-- A step that tried and did not set.
abbrev unset : Action → Option SkipReason → ℕ → WeightPlan → StepResult
unset action reason block plan = record {
  action = action;
  reason = reason;
  epoch_blocks = none;
  rate_off_blocks = none;
  next_try_block = none;
  next_try_blocks = none;
  block = some block;
  num_kings = none;
  plan = some plan;
}

module _ (poll : PollState) (params : SubnetParams) (config : WeightSetterConfig)
    (meta : MetagraphView) (kings : List King) (submissions : List Submission)
    (submit : (uids weights : List ℕ) → Bool) where
  unfoldable pub decision : SetDecision
  decision =
      should_set poll.current_block params.tempo config.netuid poll.blocks_since_last_update
        params.weights_rate_limit config.set_margin

  unfoldable pub step_kings : List RecentKing
  step_kings = if config.burn_mode then [] else recent_kings config.window kings submissions

  unfoldable pub plan_now : WeightPlan
  unfolding step_kings
  plan_now = compute_weights step_kings meta config.window config.burn_uid

  unfoldable pub step : StepResult
  unfolding decision plan_now
  step =
      if not decision.proceed
      then waiting decision poll.current_block
      else if not plan_now.submittable
      then unset skip plan_now.skip_reason poll.current_block plan_now
      else if not (submit plan_now.uids plan_now.weights)
      then unset failed none poll.current_block plan_now
      else record {
        action = set;
        reason = none;
        epoch_blocks = some decision.epoch_blocks;
        rate_off_blocks = none;
        next_try_block = none;
        next_try_blocks = none;
        block = some poll.current_block;
        num_kings = some (length step_kings);
        plan = some plan_now;
      }
