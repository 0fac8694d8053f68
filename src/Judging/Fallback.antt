-- ===== src/Judging/Fallback.antt =====
-- tau/workers/judge/fallback.py. A client's answer to an attempt is a parameter, by the number of the
-- attempt; an attempt that raises an exception has its message.
pub mod Attempts
use ninja_validator.Base.{
  ℕ, zero, suc, ◌+◌, ◌*◌, ◌≤◌, ◌≡◌, max, String, Bool, true, false, Option, none, some, List, [],
  ◌∷◌, leb, ltb, if◌then◌else◌,
}

-- What an attempt comes to: a judgment, or an exception.
pub data Attempt (J : Type 0) : Type 0 where
  answered : J → Attempt J
  raised : String → Attempt J

-- The judgment, if there is one, the counter, and the last error.
pub record Tried (J : Type 0) : Type 0 where
  pub judgment : Option J
  pub counter : ℕ
  pub last_error : Option String

module _ (J C : Type 0) (ask : C → ℕ → Attempt J) (is_route_error : String → Bool) where
  -- The inner loop, with the attempts that are left.
  unfoldable pub try_client : C → ℕ → Tried J → Tried J
  try_client client zero t = t
  try_client client (suc n) t = elim (ask client (t.counter + 1)) [
    | answered j ↦ record { judgment = some j; counter = t.counter + 1; last_error = t.last_error }
    | raised message ↦
        let failed : Tried J = record {
          judgment = none;
          counter = t.counter + 1;
          last_error = some message;
        } in
        let again = try_client client n failed in if is_route_error message then failed else again
  ]

  -- The outer loop.
  unfoldable pub try_clients : List C → ℕ → Tried J → Tried J
  unfolding try_client
  try_clients [] attempts t = t
  try_clients (client ∷ clients) attempts t =
      let t' = try_client client attempts t in
      let rest = try_clients clients attempts t' in elim t'.judgment [ some _ ↦ t' | none ↦ rest ]

  -- `judge_with_retries`; no judgment is the `RetryError`.
  unfoldable pub judge_with_retries : List C → ℕ → Tried J
  unfolding try_clients
  judge_with_retries clients attempts =
      try_clients clients (max 1 attempts)
        (record { judgment = none; counter = 0; last_error = none })

  pub record JudgeRun : Type 0 where
    pub judgment : J
    pub attempts : ℕ

  -- `judge_with_fallback`. The time runs out, if it does, within the attempt that is the last one started; a neutral judgment is made of the reason.
  unfoldable pub judge_with_fallback :
      (neutral : Option String → J) → List C → ℕ → (timeout : Option ℕ) → JudgeRun
  unfolding judge_with_retries
  judge_with_fallback neutral clients attempts timeout =
      let t = judge_with_retries clients attempts in
      let done : JudgeRun = record {
        judgment = elim t.judgment [ some j ↦ j | none ↦ neutral t.last_error ];
        attempts = t.counter;
      } in
      elim timeout [
        | none ↦ done
        | some started ↦
            if leb started t.counter
            then record { judgment = neutral (some "timeout"); attempts = started }
            else done
      ]
