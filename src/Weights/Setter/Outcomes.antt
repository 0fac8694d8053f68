-- ===== src/Weights/Setter/Outcomes.antt =====
-- When a step sets the weights, and what it sets.
use ninja_validator.Base.{ℕ, ◌≤◌, ◌≡◌, ◌↔◌, inl, Bool, true, false, some, List, arith}
use ninja_validator.Arena.Tables.{King, Submission}
use ninja_validator.Weights.Compute.{MetagraphView, WeightPlan}
use ninja_validator.Weights.Compute.Conservation.{total, Distinct, weights_whole}
use ninja_validator.Weights.Schedule.{SetDecision}
use ninja_validator.Weights.Setter.{
  SubnetParams, PollState, WeightSetterConfig, wait, set, decision, step_kings, plan_now, step,
}

module _ (poll : PollState) (params : SubnetParams) (config : WeightSetterConfig)
    (meta : MetagraphView) (kings : List King) (submissions : List Submission)
    (submit : (uids weights : List ℕ) → Bool) where
  abbrev now : SetDecision
  now = decision poll params config meta kings submissions submit

  abbrev plan : WeightPlan
  plan = plan_now poll params config meta kings submissions submit

  -- A step sets the weights just when the schedule allows it, the plan can be submitted and the
  -- chain accepts it; it waits just when the schedule does not allow it.
  pub step_exact :
      let r = step poll params config meta kings submissions submit in
      ((r.action ≡ set) ↔ (
        (now.proceed ≡ true) × (plan.submittable ≡ true) × (submit plan.uids plan.weights ≡ true)))
      × ((r.action ≡ wait) ↔ (now.proceed ≡ false))
  unfolding step
  step_exact = (
    (λ h. (ground arith, ground arith, ground arith), λ h. ground arith),
    (λ h. ground arith, λ h. ground arith),
  )

  plan_whole :
      Distinct meta.uids → 5 ≤ config.window → plan.submittable ≡ true → total plan.weights ≡ 100
  unfolding plan_now
  plan_whole d w ok =
      weights_whole (step_kings poll params config meta kings submissions submit) meta config.window
        config.burn_uid d ok (inl w)

  step_plan :
      now.proceed ≡ true
      → plan.submittable ≡ true
      → submit plan.uids plan.weights ≡ true
      → (step poll params config meta kings submissions submit).plan ≡ some plan
  unfolding step
  step_plan due ok accepted = ground arith

  -- A step that sets the weights over distinct uids, with a window of five slots or more, is one that the schedule allows, and
  -- the chain has accepted a vector of uids and weights, the plan that the step reports, whose weights add up to 100 hundredths.
  pub step_whole :
      Distinct meta.uids
      → 5 ≤ config.window
      → (step poll params config meta kings submissions submit).action ≡ set
      → (now.proceed ≡ true)
        × (p : WeightPlan) × ((step poll params config meta kings submissions submit).plan ≡ some p)
        × (submit p.uids p.weights ≡ true)
        × (total p.weights ≡ 100)
  step_whole d w h =
      let (due, ok, accepted) = step_exact.0.0 h in
      (due, plan, step_plan due ok accepted, accepted, plan_whole d w ok)
