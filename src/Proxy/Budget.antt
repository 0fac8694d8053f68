-- ===== src/Proxy/Budget.antt =====
-- tau/proxy/budget.py and the budget checks of tau/proxy/server.py, each a function on the usage. The
-- fields of a request for telemetry are left out.
pub mod Within
use ninja_validator.Base.{
  ℕ, ◌+◌, ◌-◌, min, max, Bool, true, false, not, ◌&&◌, ◌||◌, Option, none, some, List, [], ◌∷◌, ltb,
  leb, eqb, is_some, if◌then◌else◌, String,
}
use ninja_validator.Floats.{Floats}

-- The `*_EXIT_REASON` constants.
pub data ExitReason : Type 0 where
  request_limit token_limit cost_limit proxy_error : ExitReason

-- A value of the JSON payload under `max_tokens` or `max_completion_tokens`.
pub data Limit : Type 0 where
  absent : Limit
  int : ℕ → Limit
  negative : ℕ → Limit  -- -(n + 1)
  other : Limit  -- null, a float, a text, a list or an object

-- The parsed body, by what the proxy reads of it: `estimate` is its `estimate_prompt_tokens`.
pub record Payload : Type 0 where
  pub model : Option String
  pub has_messages : Bool
  pub estimate : ℕ
  pub max_tokens : Limit
  pub max_completion_tokens : Limit

-- `set_requested_max_output_tokens` on one key, where the value is an int.
abbrev pub clamp_limit : ℕ → Limit → Limit
clamp_limit value absent = absent
clamp_limit value (int n) = int (min n value)
clamp_limit value (negative n) = negative n
clamp_limit value other = other

-- `max_tokens` is set even where it is no int.
abbrev pub set_limit : ℕ → Limit → Limit
set_limit value absent = int value
set_limit value (int n) = int (min n value)
set_limit value (negative n) = negative n
set_limit value other = int value

-- `set_requested_max_output_tokens`
unfoldable pub set_requested_max_output_tokens : ℕ → Payload → Payload
set_requested_max_output_tokens value p = record p {
  max_tokens = set_limit value p.max_tokens;
  max_completion_tokens = clamp_limit value p.max_completion_tokens;
}

-- `x is not None and n >= x`
abbrev pub reaches : ℕ → Option ℕ → Bool
reaches n none = false
reaches n (some most) = leb most n

-- The limit less what is used, where there is one.
abbrev pub remaining_of : Option ℕ → ℕ → Option ℕ
remaining_of none used = none
remaining_of (some most) used = some (most - used)

-- `limits.append(…)`, and `min(limits)`; none for no limits.
abbrev pub least : Option ℕ → Option ℕ → Option ℕ
least none b = b
least (some a) none = some a
least (some a) (some b) = some (min a b)

-- `estimated_prompt_tokens > remaining_prompt`, and `>= remaining_total`
abbrev pub is_over : ℕ → Option ℕ → Bool
is_over estimate none = false
is_over estimate (some left) = ltb left estimate

abbrev pub is_used_up : ℕ → Option ℕ → Bool
is_used_up estimate none = false
is_used_up estimate (some left) = leb left estimate

-- What the cost leaves: a limit on the output, none, or that the prompt alone costs too much.
pub data Affordable : Type 0 where
  unlimited : Affordable
  up_to : ℕ → Affordable
  too_dear : Affordable

module _ (fl : Floats) where
  open fl use {Float, nought, of_int, add, sub, mul, div, lt, le, to_int}

  pub record SolveBudget : Type 0 where
    pub max_requests : Option ℕ
    pub max_total_tokens : Option ℕ
    pub max_prompt_tokens : Option ℕ
    pub max_completion_tokens : Option ℕ
    pub max_cost : Option Float
    pub max_tokens_per_request : Option ℕ

  -- The counters that the budget depends on, and those of the outcomes.
  pub record SolveUsageSummary : Type 0 where
    pub request_count : ℕ
    pub rejected_request_count : ℕ
    pub success_count : ℕ
    pub error_count : ℕ
    pub prompt_tokens : ℕ
    pub completion_tokens : ℕ
    pub total_tokens : ℕ
    pub cost : Float
    pub budget_exceeded_reason : Option ExitReason

  -- `SolveBudget.enabled`
  abbrev pub enabled : SolveBudget → Bool
  enabled b =
      (is_some b.max_requests || (is_some b.max_total_tokens || is_some b.max_prompt_tokens))
      || (is_some b.max_completion_tokens
          || (is_some b.max_cost || is_some b.max_tokens_per_request))

  abbrev pub exceed : ExitReason → SolveUsageSummary → SolveUsageSummary
  exceed reason u = record u { budget_exceeded_reason = some reason }

  abbrev pub costs_up : Float → Option Float → Bool
  costs_up cost none = false
  costs_up cost (some most) = le most cost

  -- `_check_pre_request_budget_locked`, with a budget
  unfoldable pub check_pre_request_budget : SolveBudget → SolveUsageSummary → SolveUsageSummary
  check_pre_request_budget b u =
      if is_some u.budget_exceeded_reason
      then u
      else if costs_up u.cost b.max_cost
      then exceed ExitReason.cost_limit u
      else if reaches u.total_tokens b.max_total_tokens
      then exceed ExitReason.token_limit u
      else if reaches u.prompt_tokens b.max_prompt_tokens
      then exceed ExitReason.token_limit u
      else if reaches u.completion_tokens b.max_completion_tokens
      then exceed ExitReason.token_limit u
      else u

  -- `_check_request_limit_locked`
  unfoldable pub check_request_limit : SolveBudget → SolveUsageSummary → SolveUsageSummary
  check_request_limit b u =
      if is_some u.budget_exceeded_reason
      then u
      else if reaches u.request_count b.max_requests
      then exceed ExitReason.request_limit u
      else u

  -- `_check_estimated_request_budget_locked`
  unfoldable pub check_estimated_request_budget :
      SolveBudget → ℕ → SolveUsageSummary → SolveUsageSummary
  check_estimated_request_budget b estimate u =
      if is_some u.budget_exceeded_reason
      then u
      else if is_over estimate (remaining_of b.max_prompt_tokens u.prompt_tokens)
          || is_used_up estimate (remaining_of b.max_total_tokens u.total_tokens)
      then exceed ExitReason.token_limit u
      else u

  -- `_average_cost_per_token_locked`
  unfoldable pub average_cost_per_token : SolveUsageSummary → Option Float
  average_cost_per_token u =
      if leb u.total_tokens 0 || le u.cost nought
      then none
      else some (div u.cost (of_int u.total_tokens))

  -- `limits` without the one of the cost.
  unfoldable pub token_limits : SolveBudget → ℕ → SolveUsageSummary → Option ℕ
  token_limits b estimate u = least b.max_tokens_per_request (
      least (remaining_of b.max_completion_tokens u.completion_tokens)
        (remaining_of (remaining_of b.max_total_tokens u.total_tokens) estimate))

  -- `max(0.0, x)`
  abbrev pub at_least_nought : Float → Float
  at_least_nought x = if lt nought x then x else nought

  unfoldable pub affordable : SolveBudget → ℕ → SolveUsageSummary → Affordable
  unfolding average_cost_per_token
  affordable b estimate u = elim b.max_cost [
    | none ↦ unlimited
    | some max_cost ↦ elim (average_cost_per_token u) [
      | none ↦ unlimited
      | some average ↦
          let remaining = at_least_nought (sub max_cost u.cost) in
          let prompt_cost = mul (of_int estimate) average in
          if not (lt nought average)
          then unlimited
          else if le remaining prompt_cost
          then too_dear
          else up_to (to_int (div (sub remaining prompt_cost) average))
    ]
  ]

  -- The clamp by `allowed_max_tokens`.
  abbrev pub clamp_by : Option ℕ → Payload → SolveUsageSummary → SolveUsageSummary × Payload
  clamp_by none p u = (u, p)
  clamp_by (some allowed) p u =
      if leb allowed 0
      then (exceed ExitReason.token_limit u, p)
      else (u, set_requested_max_output_tokens allowed p)

  -- The rest of the clamp, from what the cost leaves on.
  unfoldable pub clamp_with :
      SolveBudget → Payload → SolveUsageSummary → Affordable → SolveUsageSummary × Payload
  unfolding token_limits set_requested_max_output_tokens
  clamp_with b p u too_dear = (exceed ExitReason.cost_limit u, p)
  clamp_with b p u unlimited = clamp_by (token_limits b p.estimate u) p u
  clamp_with b p u (up_to n) = clamp_by (least (token_limits b p.estimate u) (some n)) p u

  -- `_clamp_request_tokens_locked`
  unfoldable pub clamp_request_tokens :
      SolveBudget → Payload → SolveUsageSummary → SolveUsageSummary × Payload
  unfolding affordable clamp_with
  clamp_request_tokens b p u = clamp_with b p u (affordable b p.estimate u)
