-- ===== src/Proxy/Server/Forwarded.antt =====
-- What holds of a request that is forwarded.
use ninja_validator.Base.{
  ◌+◌, ◌≡◌, true, not, ◌||◌, Option, none, some, arith, refl, ◌∙◌, sym, subst, ap, inl, inr,
  Option-cases, string_key, contains, eqb, if◌then◌else◌,
}
use ninja_validator.Floats.{Floats}
use ninja_validator.Proxy.Budget.{
  Payload, SolveBudget, SolveUsageSummary, enabled, clamp_request_tokens, clamp_with, affordable,
}
use ninja_validator.Proxy.Budget.Within.{
  IsCapped, IsAdmitted, checked, checked-IsAdmitted, clamp_with-IsCapped, clamp_with_keeps,
}
use ninja_validator.Proxy.Server.{
  Request, LlmProxy, forward, claim, enforce_model, prepare_object, prepare_request_body,
  handle_body, handle_request, allowed_paths, decide_prepared,
}

module _ (fl : Floats) (b : SolveBudget fl) where
  -- The usage lets the payload pass, and counts it.
  pub record IsWithin (u u' : SolveUsageSummary fl) (p : Payload) : Type 0 where
    pub admitted : IsAdmitted fl b u p.estimate
    pub capped : IsCapped fl b u p.estimate p.max_tokens
    pub counted : u' ≡ record u { request_count = u.request_count + 1 }

  prepare_object-clamped :
      (p : Payload) (u : SolveUsageSummary fl)
      → (prepare_object fl b p u).rejection ≡ none
      → (checked fl b p.estimate u).budget_exceeded_reason ≡ none
  unfolding prepare_object
  prepare_object-clamped p u e = ground arith

  -- An object that passes the checks is clamped on the usage as it was.
  prepare_object-passed :
      (p : Payload) (u : SolveUsageSummary fl)
      → (checked fl b p.estimate u).budget_exceeded_reason ≡ none
      → checked fl b p.estimate u ≡ u
      → prepare_object fl b p u
        ≡ claim fl (some (clamp_request_tokens fl b p u).1) (clamp_request_tokens fl b p u).0
  unfolding prepare_object
  prepare_object-passed p u e c = rw (e, c) refl

  prepare_object-IsWithin :
      (p : Payload) (u : SolveUsageSummary fl)
      → (prepare_object fl b p u).rejection ≡ none
      → (p' : Payload) × ((prepare_object fl b p u).body ≡ some p')
        × IsWithin u (prepare_object fl b p u).usage p'
  unfolding clamp_request_tokens
  prepare_object-IsWithin p u e =
      let passed = prepare_object-clamped p u e in
      let (v, c) = checked-IsAdmitted fl b p.estimate u passed in
      let same = prepare_object-passed p u passed c in
      let a = affordable fl b p.estimate u in
      let left : (clamp_with fl b p u a).0.budget_exceeded_reason ≡ none = ground (arith, same) in
      let (kept, estimate) = clamp_with_keeps fl b p u a v.open_yet left in
      let capped = clamp_with-IsCapped fl b p u a v.open_yet left in
      (
        (clamp_with fl b p u a).1,
        ground (arith, same, left),
        record {
          admitted = rw estimate v;
          capped = rw estimate capped;
          counted = ground (arith, same, left, kept);
        },
      )

  -- The body that is decided on, and how.
  handle_body-object :
      (proxy : LlmProxy fl) (p p' : Payload) (u : SolveUsageSummary fl)
      → proxy.solve_budget ≡ some b
      → enabled fl b ≡ true
      → (handle_body fl proxy (some p) u).1 ≡ forward p'
      → handle_body fl proxy (some p) u
        ≡ decide_prepared fl (prepare_object fl b (enforce_model proxy.enforced_model p) u)
  unfolding handle_body prepare_request_body
  handle_body-object proxy p p' u h e f = ground arith

  decide_prepared-IsWithin :
      (p p' : Payload) (u : SolveUsageSummary fl)
      → (decide_prepared fl (prepare_object fl b p u)).1 ≡ forward p'
      → IsWithin u (decide_prepared fl (prepare_object fl b p u)).0 p'
  decide_prepared-IsWithin p p' u f =
      let accepted : (prepare_object fl b p u).rejection ≡ none = ground arith in
      let (q, e, v) = prepare_object-IsWithin p u accepted in
      let same : q ≡ p' = ground arith in
      let usage : (decide_prepared fl (prepare_object fl b p u)).0
          ≡ (prepare_object fl b p u).usage =
        ground arith in
      subst (λ x. IsWithin u x p') (sym usage)
        (subst (IsWithin u (prepare_object fl b p u).usage) same v)

  handle_body-IsWithin :
      (proxy : LlmProxy fl) (body : Option Payload) (p' : Payload) (u : SolveUsageSummary fl)
      → proxy.solve_budget ≡ some b
      → enabled fl b ≡ true
      → (handle_body fl proxy body u).1 ≡ forward p'
      → IsWithin u (handle_body fl proxy body u).0 p'
  unfolding handle_body
  handle_body-IsWithin proxy none p' u h e f = absurd (ground arith)
  handle_body-IsWithin proxy (some p) p' u h e f =
      let same = handle_body-object proxy p p' u h e f in
      let enforced = enforce_model proxy.enforced_model p in
      subst (λ x. IsWithin u x.0 p') (sym same)
        (decide_prepared-IsWithin enforced p' u (ap (λ x. x.1) (sym same) ∙ f))

  -- The command, the path and the credentials are allowed.
  pub record IsAllowed (proxy : LlmProxy fl) (r : Request) : Type 0 where
    pub method : r.command ≡ "POST"
    pub path : contains r.request_path allowed_paths ≡ true
    pub credentials : (not proxy.require_auth || (r.authorization_fits || r.api_key_fits)) ≡ true

  -- Under a budget that sets a limit, a request that is forwarded is a POST to an allowed path, with the
  -- credentials where they are required. No limit was exceeded before it, it is counted and keeps
  -- within the number of requests, its estimated prompt fits what is left of the prompt tokens and of
  -- all tokens, and with the tokens used and the estimate, the `max_tokens` that it is forwarded with
  -- stays within the limits on one request, on the completion and on all tokens.
  pub handle_request-forwarded :
      (proxy : LlmProxy fl) (r : Request) (p' : Payload) (u : SolveUsageSummary fl)
      → proxy.solve_budget ≡ some b
      → enabled fl b ≡ true
      → (handle_request fl proxy r u).1 ≡ forward p'
      → IsAllowed proxy r × IsWithin u (handle_request fl proxy r u).0 p'
  unfolding handle_request
  handle_request-forwarded proxy r p' u h e f = elim (Option-cases r.content_length) [
    | inl n ↦ absurd (ground arith)
    | inr (n, l) ↦
        let body = if eqb n 0 then none else r.body in
        let same : handle_request fl proxy r u ≡ handle_body fl proxy body u = ground arith in
        (
          record { method = ground arith; path = ground arith; credentials = ground arith },
          subst (λ x. IsWithin u x.0 p') (sym same)
              (handle_body-IsWithin proxy body p' u h e (ap (λ x. x.1) (sym same) ∙ f)),
        )
  ]
