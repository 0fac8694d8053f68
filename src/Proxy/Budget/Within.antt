-- ===== src/Proxy/Budget/Within.antt =====
-- What a forwarded request may use.
use ninja_validator.Base.{
  ℕ, ◌+◌, ◌≤◌, ◌<◌, ◌≡◌, Bool, true, false, Option, none, some, arith, leb, string_key,
}
use ninja_validator.Floats.{Floats}
use ninja_validator.Proxy.Budget.{
  Limit, Payload, SolveBudget, SolveUsageSummary, reaches, costs_up, check_pre_request_budget,
  check_request_limit, check_estimated_request_budget, clamp_with, token_limits, Affordable,
  is_over, is_used_up, remaining_of, set_requested_max_output_tokens,
}

-- With `used` spent, the value under a key is an int that stays within the limit, where there is one.
abbrev pub is_capped : ℕ → Option ℕ → Limit → Bool
is_capped used none l = true
is_capped used (some most) (Limit.int n) = leb (used + n) most
is_capped used (some most) (Limit.negative n) = true
is_capped used (some most) _ = false

-- The use is below the limit, where there is one; with this much more it stays within it, or below it.
abbrev pub IsUnder : ℕ → Option ℕ → Type 0
IsUnder used none = Unit
IsUnder used (some most) = used < most

abbrev pub Fits : ℕ → Option ℕ → Type 0
Fits used none = Unit
Fits used (some most) = used ≤ most

reaches-IsUnder : (used : ℕ) (l : Option ℕ) → reaches used l ≡ false → IsUnder used l
reaches-IsUnder used none e = tt
reaches-IsUnder used (some most) e = ground arith

is_over-Fits :
    (used n : ℕ) (l : Option ℕ)
    → reaches used l ≡ false
    → is_over n (remaining_of l used) ≡ false
    → Fits (used + n) l
is_over-Fits used n none h e = tt
is_over-Fits used n (some most) h e = ground arith

is_used_up-IsUnder :
    (used n : ℕ) (l : Option ℕ) → is_used_up n (remaining_of l used) ≡ false → IsUnder (used + n) l
is_used_up-IsUnder used n none e = tt
is_used_up-IsUnder used n (some most) e = ground arith

module _ (fl : Floats) (b : SolveBudget fl) where
  open fl use {Float, le}

  -- The greatest cost, where there is one, is not at most the cost so far.
  abbrev pub CostsLess : Float → Option Float → Type 0
  CostsLess cost none = Unit
  CostsLess cost (some most) = le most cost ≡ false

  costs_up-CostsLess :
      (cost : Float) (l : Option Float) → costs_up fl cost l ≡ false → CostsLess cost l
  costs_up-CostsLess cost none e = tt
  costs_up-CostsLess cost (some most) e = e

  -- The output that the payload asks for stays within every limit on tokens.
  pub record IsCapped (u : SolveUsageSummary fl) (estimate : ℕ) (l : Limit) : Type 0 where
    pub request : is_capped 0 b.max_tokens_per_request l ≡ true
    pub completion : is_capped u.completion_tokens b.max_completion_tokens l ≡ true
    pub total : is_capped (u.total_tokens + estimate) b.max_total_tokens l ≡ true

  abbrev pub checked : ℕ → SolveUsageSummary fl → SolveUsageSummary fl
  checked estimate u =
      check_estimated_request_budget fl b estimate
        (check_request_limit fl b (check_pre_request_budget fl b u))

  -- A usage that passes the checks was not exceeded, and is left as it was.
  pub record IsAdmitted (u : SolveUsageSummary fl) (estimate : ℕ) : Type 0 where
    pub open_yet : u.budget_exceeded_reason ≡ none
    pub cost : CostsLess u.cost b.max_cost
    pub requests : IsUnder u.request_count b.max_requests
    pub completion : IsUnder u.completion_tokens b.max_completion_tokens
    pub prompt_left : IsUnder u.prompt_tokens b.max_prompt_tokens
    pub prompt : Fits (u.prompt_tokens + estimate) b.max_prompt_tokens
    pub total : IsUnder (u.total_tokens + estimate) b.max_total_tokens

  pub checked-IsAdmitted :
      (estimate : ℕ) (u : SolveUsageSummary fl)
      → (checked estimate u).budget_exceeded_reason ≡ none
      → IsAdmitted u estimate × (checked estimate u ≡ u)
  unfolding check_estimated_request_budget check_request_limit check_pre_request_budget
  checked-IsAdmitted estimate u e = (
    record {
      open_yet = ground arith;
      cost = costs_up-CostsLess u.cost b.max_cost (ground arith);
      requests = reaches-IsUnder u.request_count b.max_requests (ground arith);
      completion = reaches-IsUnder u.completion_tokens b.max_completion_tokens (ground arith);
      prompt_left = reaches-IsUnder u.prompt_tokens b.max_prompt_tokens (ground arith);
      prompt =
          is_over-Fits u.prompt_tokens estimate b.max_prompt_tokens (ground arith) (ground arith);
      total = is_used_up-IsUnder u.total_tokens estimate b.max_total_tokens (ground arith);
    },
    ground arith,
  )

  pub clamp_with-IsCapped :
      (p : Payload) (u : SolveUsageSummary fl) (a : Affordable)
      → u.budget_exceeded_reason ≡ none
      → (clamp_with fl b p u a).0.budget_exceeded_reason ≡ none
      → IsCapped u p.estimate (clamp_with fl b p u a).1.max_tokens
  unfolding clamp_with token_limits set_requested_max_output_tokens
  clamp_with-IsCapped p u Affordable.too_dear h e = absurd (ground arith)
  clamp_with-IsCapped p u Affordable.unlimited h e = record {
    request = ground arith;
    completion = ground arith;
    total = ground arith;
  }
  clamp_with-IsCapped p u (Affordable.up_to n) h e = record {
    request = ground arith;
    completion = ground arith;
    total = ground arith;
  }

  -- Unless it exceeds the budget, the clamp keeps the usage and the estimate.
  pub clamp_with_keeps :
      (p : Payload) (u : SolveUsageSummary fl) (a : Affordable)
      → u.budget_exceeded_reason ≡ none
      → (clamp_with fl b p u a).0.budget_exceeded_reason ≡ none
      → ((clamp_with fl b p u a).0 ≡ u) × ((clamp_with fl b p u a).1.estimate ≡ p.estimate)
  unfolding clamp_with token_limits set_requested_max_output_tokens
  clamp_with_keeps p u Affordable.too_dear h e = absurd (ground arith)
  clamp_with_keeps p u Affordable.unlimited h e = (ground arith, ground arith)
  clamp_with_keeps p u (Affordable.up_to n) h e = (ground arith, ground arith)
