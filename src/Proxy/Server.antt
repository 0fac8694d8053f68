-- ===== src/Proxy/Server.antt =====
-- tau/proxy/server.py: a request up to its forwarding, and the accounting after it. `request_path` is the
-- path up to the first `?`; the headers that authorize are compared with the expected ones outside.
pub mod Forwarded
use ninja_validator.Base.{
  ℕ, ◌+◌, ◌-◌, ◌*◌, String, Bool, true, false, not, ◌&&◌, ◌||◌, Option, none, some, List, [], ◌∷◌,
  ltb, leb, eqb, ◌==◌, string_key, contains, is_some, if◌then◌else◌,
}
use ninja_validator.Floats.{Floats}
use ninja_validator.Proxy.Budget.{
  ExitReason, Payload, SolveBudget, SolveUsageSummary, enabled, check_pre_request_budget,
  check_request_limit, check_estimated_request_budget, clamp_request_tokens,
}

-- `_MAX_REQUEST_BODY_BYTES`
abbrev pub max_request_body_bytes : ℕ
max_request_body_bytes = 2 * 1024 * 1024

abbrev pub allowed_paths : List String
allowed_paths = "/v1/chat/completions" ∷ "/v1/messages" ∷ []

-- `content_length` is none where the header is no number or below 0; `body` is the JSON object, if the
-- body is one.
pub record Request : Type 0 where
  pub command : String
  pub request_path : String
  pub authorization_fits : Bool
  pub api_key_fits : Bool
  pub content_length : Option ℕ
  pub body : Option Payload

-- Whether an optional text is there and not empty.
abbrev pub is_text : Option String → Bool
is_text none = false
is_text (some s) = not (s == "")

abbrev pub enforce_model : Option String → Payload → Payload
enforce_model model p = if is_text model then record p { model = model } else p

module _ (fl : Floats) where
  open fl use {Float, add}

  -- What `_prepare_request_body` returns: the body, and the reason to reject it, if there is one; and the
  -- usage after it.
  pub record Prepared : Type 0 where
    pub usage : SolveUsageSummary fl
    pub body : Option Payload
    pub rejection : Option ExitReason

  -- The slot is claimed unless the budget is exceeded.
  abbrev pub claim : Option Payload → SolveUsageSummary fl → Prepared
  claim body u = elim u.budget_exceeded_reason [
    | some reason ↦ record { usage = u; body = body; rejection = some reason }
    | none ↦ record {
      usage = record u { request_count = u.request_count + 1 };
      body = body;
      rejection = none;
    }
  ]

  -- The checks of a JSON object under a budget. Each check leaves a usage alone that is exceeded, so the
  -- early returns between them come to the one at the end.
  unfoldable pub prepare_object : SolveBudget fl → Payload → SolveUsageSummary fl → Prepared
  unfolding check_pre_request_budget check_request_limit check_estimated_request_budget
      clamp_request_tokens
  prepare_object b p u =
      let checked =
        check_estimated_request_budget fl b p.estimate
          (check_request_limit fl b (check_pre_request_budget fl b u)) in
      let (clamped, p') = clamp_request_tokens fl b p checked in
      if is_some checked.budget_exceeded_reason
      then record { usage = checked; body = some p; rejection = checked.budget_exceeded_reason }
      else claim (some p') clamped

  -- `_prepare_request_body`; the provider and the sampling parameters that it enforces are left out.
  unfoldable pub prepare_request_body :
      Option (SolveBudget fl) → Option String → Option Payload → SolveUsageSummary fl → Prepared
  unfolding prepare_object check_pre_request_budget check_request_limit
  prepare_request_body none enforced_model none u = claim none u
  prepare_request_body none enforced_model (some p) u =
      claim (some (enforce_model enforced_model p)) u
  prepare_request_body (some b) enforced_model none u =
      if enabled fl b
      then claim none (check_request_limit fl b (check_pre_request_budget fl b u))
      else claim none u
  prepare_request_body (some b) enforced_model (some p) u =
      if enabled fl b
      then prepare_object b (enforce_model enforced_model p) u
      else claim (some (enforce_model enforced_model p)) u

  -- What comes of a request: the answer to a HEAD, a rejection, or the body to forward.
  pub data Decision : Type 0 where
    answer_head : Decision
    reject : (status : ℕ) → ExitReason → Decision
    forward : Payload → Decision

  -- `_reject_request`, on the usage
  unfoldable pub reject_request : ExitReason → SolveUsageSummary fl → SolveUsageSummary fl
  reject_request reason u = record u {
    budget_exceeded_reason = some reason;
    rejected_request_count = u.rejected_request_count + 1;
  }

  abbrev pub policy_violation : ℕ → SolveUsageSummary fl → SolveUsageSummary fl × Decision
  policy_violation status u =
      (reject_request ExitReason.proxy_error u, reject status ExitReason.proxy_error)

  -- The settings of `LLMProxy`.
  pub record LlmProxy : Type 0 where
    pub require_auth : Bool
    pub enforced_model : Option String
    pub solve_budget : Option (SolveBudget fl)

  abbrev pub names_model : LlmProxy → Payload → Bool
  names_model proxy p = is_text p.model || is_text proxy.enforced_model

  -- `_handle_request` from the prepared body on.
  abbrev pub decide_prepared : Prepared → SolveUsageSummary fl × Decision
  decide_prepared prepared = elim prepared.rejection [
    | some reason ↦ (reject_request reason prepared.usage, reject 429 reason)
    | none ↦ elim prepared.body [
      | none ↦ (prepared.usage, reject 400 ExitReason.proxy_error)
      | some p ↦ (prepared.usage, forward p)
    ]
  ]

  -- `_handle_request` from the parsed body on; a body that is no object has no messages.
  unfoldable pub handle_body :
      LlmProxy → Option Payload → SolveUsageSummary fl → SolveUsageSummary fl × Decision
  unfolding prepare_request_body reject_request
  handle_body proxy none u = policy_violation 400 u
  handle_body proxy (some p) u =
      if not (names_model proxy p) || not p.has_messages
      then policy_violation 400 u
      else decide_prepared (prepare_request_body proxy.solve_budget proxy.enforced_model (some p) u)

  -- `_handle_request`
  unfoldable pub handle_request :
      LlmProxy → Request → SolveUsageSummary fl → SolveUsageSummary fl × Decision
  unfolding handle_body reject_request
  handle_request proxy r u =
      if r.command == "HEAD"
      then (u, answer_head)
      else if not (r.command == "POST")
      then policy_violation 405 u
      else if not (contains r.request_path allowed_paths)
      then policy_violation 403 u
      else if proxy.require_auth && (not r.authorization_fits && not r.api_key_fits)
      then policy_violation 401 u
      else elim r.content_length [
        | none ↦ policy_violation 400 u
        | some n ↦
            if ltb max_request_body_bytes n
            then policy_violation 413 u
            else handle_body proxy (if eqb n 0 then none else r.body) u
      ]

  -- What the upstream's answer is recorded with.
  pub record Response : Type 0 where
    pub is_success : Bool
    pub prompt_tokens : ℕ
    pub completion_tokens : ℕ
    pub total_tokens : ℕ
    pub cost : Float

  -- `_record_request`
  unfoldable pub record_request :
      Option (SolveBudget fl) → Response → SolveUsageSummary fl → SolveUsageSummary fl
  unfolding check_pre_request_budget
  record_request budget x u =
      let u' : SolveUsageSummary fl = record u {
        success_count = u.success_count + (if x.is_success then 1 else 0);
        error_count = u.error_count + (if x.is_success then 0 else 1);
        prompt_tokens = u.prompt_tokens + x.prompt_tokens;
        completion_tokens = u.completion_tokens + x.completion_tokens;
        total_tokens = u.total_tokens + x.total_tokens;
        cost = add u.cost x.cost;
      } in
      elim budget [ none ↦ u' | some b ↦ check_pre_request_budget fl b u' ]

  -- The accounting of a `CacheMissError`: the claimed slot is given back.
  unfoldable pub cache_miss : SolveUsageSummary fl → SolveUsageSummary fl
  cache_miss u = record u {
    request_count = u.request_count - 1;
    rejected_request_count = u.rejected_request_count + 1;
    error_count = u.error_count + 1;
  }
