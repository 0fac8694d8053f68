-- ===== src/Tests/Requests.antt =====
-- A request to the proxy.
use ninja_validator.Base.{◌≡◌, refl, String-discrete, true, false, none, some}
use ninja_validator.Proxy.Budget.{Limit, Payload, SolveBudget, SolveUsageSummary}
use ninja_validator.Proxy.Server.{Request, LlmProxy, forward, handle_request}
use ninja_validator.Proxy.Server.Forwarded.{IsAllowed, IsWithin, handle_request-forwarded}
use ninja_validator.Tests.{hundredths}

abbrev budget : SolveBudget hundredths
budget = record {
  max_requests = some 3;
  max_total_tokens = some 1000;
  max_prompt_tokens = none;
  max_completion_tokens = some 500;
  max_cost = some 900;
  max_tokens_per_request = none;
}

abbrev proxy : LlmProxy hundredths
proxy = record { require_auth = true; enforced_model = some "m"; solve_budget = some budget }

abbrev payload : Payload
payload = record {
  model = none;
  has_messages = true;
  estimate = 100;
  max_tokens = Limit.int 4000;
  max_completion_tokens = Limit.absent;
}

abbrev request : Request
request = record {
  command = "POST";
  request_path = "/v1/messages";
  authorization_fits = false;
  api_key_fits = true;
  content_length = some 80;
  body = some payload;
}

-- One request has cost 3.00 and used 300 tokens.
abbrev usage : SolveUsageSummary hundredths
usage = record {
  request_count = 1;
  rejected_request_count = 0;
  success_count = 1;
  error_count = 0;
  prompt_tokens = 200;
  completion_tokens = 100;
  total_tokens = 300;
  cost = 300;
  budget_exceeded_reason = none;
}

abbrev forwarded : Payload
forwarded = record payload { model = some "m"; max_tokens = Limit.int 400 }

is_forwarded : (handle_request hundredths proxy request usage).1 ≡ forward forwarded
unfolding handle_request String-discrete
is_forwarded = refl

handle_request-forwarded_example :
    IsAllowed hundredths budget proxy request
    × IsWithin hundredths budget usage (handle_request hundredths proxy request usage).0 forwarded
handle_request-forwarded_example =
    handle_request-forwarded hundredths budget proxy request forwarded usage refl refl is_forwarded
