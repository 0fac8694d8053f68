-- ===== src/Screener/Runner.antt =====
-- tau/workers/task_screener/runner.py: the calls of one screening. What a client answers to each attempt is its
-- parameter, and so is the number of the call during which the total time runs out. `lower` is `str.lower`.
pub mod Routes
pub mod Bounds
use ninja_validator.Base.{
  ℕ, zero, suc, ◌+◌, String, Bool, true, false, Option, none, some, List, [], ◌∷◌, eqb, ◌==◌,
  nat_key, contains, length, max, if◌then◌else◌,
}
use ninja_validator.Base.Texts.{codes, has_any_phrase}

-- How a call of `score_candidate` ends: a score, a `TimeoutError`, or another exception by its text.
pub data CallResult (A : Type 0) : Type 0 where
  scored : A → CallResult A
  timed_out : CallResult A
  raised : String → CallResult A

-- A client, by its answers to the attempts.
abbrev pub Client : Type 0 → Type 0
Client A = ℕ → CallResult A

-- The calls made, the last one first, each by its attempt and its route; the counter is their number.
pub record Calls : Type 0 where
  pub made : List (ℕ × ℕ)
  pub disabled_routes : List ℕ

abbrev pub no_calls : Calls
no_calls = record { made = []; disabled_routes = [] }

-- `ScreenRun`, by its result: with none, `error` is set.
pub data ScreenRun (A : Type 0) : Type 0 where
  finished : A → ScreenRun A
  exhausted : ScreenRun A
  out_of_time : ScreenRun A

-- What a pass over the routes comes to.
pub data Pass (A : Type 0) : Type 0 where
  ended : ScreenRun A → Calls → Pass A
  going_on : Calls → Pass A

abbrev pub route_errors : List String
route_errors = "openrouter returned no choices" ∷ "provider returned error" ∷ "error_code=403" ∷ []

-- `counter.tick`
abbrev pub count_call : ℕ → ℕ → Calls → Calls
count_call attempt route c = record c { made = (attempt, route) ∷ c.made }

abbrev pub is_last : Option ℕ → ℕ → Bool
is_last none n = false
is_last (some m) n = eqb m n

-- `_is_route_error`
unfoldable pub is_route_error : (List ℕ → List ℕ) → String → Bool
unfolding has_any_phrase
is_route_error lower error = has_any_phrase route_errors (lower (codes error))

-- `disabled_routes.add(route_index)`, after an exception that says so
unfoldable pub disable : (List ℕ → List ℕ) → ℕ → String → Calls → Calls
unfolding is_route_error
disable lower route error c =
    if is_route_error lower error
    then record c { disabled_routes = route ∷ c.disabled_routes }
    else c

module _ {A : Type 0} (lower : List ℕ → List ℕ) (last_call : Option ℕ) where
  -- The inner loop of `screen_with_retries`, from a route on.
  unfoldable pub try_routes : ℕ → ℕ → List (Client A) → Calls → Pass A
  unfolding disable
  try_routes attempt route [] c = going_on c
  try_routes attempt route (client ∷ clients) c =
      let c' = count_call attempt route c in
      elim (contains route c.disabled_routes) [
        | true ↦ try_routes attempt (suc route) clients c
        | false ↦ elim (is_last last_call (length c'.made)) [
          | true ↦ ended out_of_time c'
          | false ↦ elim (client attempt) [
            | scored a ↦ ended (finished a) c'
            | timed_out ↦ try_routes attempt (suc route) clients c'
            | raised error ↦ try_routes attempt (suc route) clients (disable lower route error c')
          ]
        ]
      ]

  -- The outer loop, with the attempts that are left.
  unfoldable pub try_attempts : ℕ → ℕ → List (Client A) → Calls → ScreenRun A × Calls
  unfolding try_routes
  try_attempts attempt zero clients c = (exhausted, c)
  try_attempts attempt (suc left) clients c = elim (try_routes attempt 0 clients c) [
    | ended run c' ↦ (run, c')
    | going_on c' ↦ try_attempts (suc attempt) left clients c'
  ]

  -- `screen_with_fallback` around `screen_with_retries`
  unfoldable pub screen_with_fallback : ℕ → List (Client A) → ScreenRun A × Calls
  unfolding try_attempts
  screen_with_fallback attempts clients = try_attempts 1 (max 1 attempts) clients no_calls
