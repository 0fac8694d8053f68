-- ===== src/Judging/Fallback/Attempts.antt =====
-- How many attempts are made, and what they come to.
use ninja_validator.Base.{
  ℕ, zero, suc, ◌+◌, ◌-◌, ◌*◌, ◌≤◌, ◌<◌, ◌≡◌, ◌⊎◌, inl, inr, refl, ◌∙◌, sym, subst, max, String,
  Bool, true, false, none, some, List, [], ◌∷◌, arith, length, Bool-cases, All,
}
use mathlib.Core.List.{Memᴰ}
use ninja_validator.Base.Alls.{All-imp}
use native.Mathlib.Nat.{suc-mul, add_comm}
use ninja_validator.Judging.Fallback.{
  Attempt, answered, raised, Tried, try_client, try_clients, judge_with_retries,
}

Attempt-cases :
    {J : Type 0} (a : Attempt J) → ((j : J) × (a ≡ answered j)) ⊎ ((m : String) × (a ≡ raised m))
Attempt-cases (answered j) = inl (j, refl)
Attempt-cases (raised m) = inr (m, refl)

module _ (J C : Type 0) (ask : C → ℕ → Attempt J) (is_route_error : String → Bool) where
  -- Between two states of the loops the client was asked, and raised an exception.
  abbrev pub FailedBetween : (t u : Tried J) → C → Type 0
  FailedBetween t u c =
      (n : ℕ) × (t.counter < n) × (n ≤ u.counter) × (m : String) × (ask c n ≡ raised m)

  -- From a state of the loops to a later one: at most `most` attempts were made, and the last one was answered by one of the
  -- clients if there is a judgment; if not, each of these clients failed.
  record IsTried (clients asked : List C) (most : ℕ) (t u : Tried J) : Type 0 where
    pub later : t.counter ≤ u.counter
    pub below : u.counter ≤ t.counter + most
    pub result :
        ((j : J) × (c : C) × Memᴰ c clients
          × (u.judgment ≡ some j)
          × (ask c u.counter ≡ answered j))
        ⊎ (u.judgment ≡ none) × All (FailedBetween t u) asked

  abbrev attempt : C → ℕ → Tried J → Tried J
  attempt = try_client J C ask is_route_error

  abbrev clients_of : List C → ℕ → Tried J → Tried J
  clients_of = try_clients J C ask is_route_error

  abbrev failed : String → Tried J → Tried J
  failed m t = record { judgment = none; counter = t.counter + 1; last_error = some m }

  try_client-answered :
      (c : C) (n : ℕ) (t : Tried J) (j : J)
      → ask c (t.counter + 1) ≡ answered j
      → attempt c (suc n) t
        ≡ record { judgment = some j; counter = t.counter + 1; last_error = t.last_error }
  unfolding try_client
  try_client-answered c n t j e = ground arith

  try_client-route :
      (c : C) (n : ℕ) (t : Tried J) (m : String)
      → ask c (t.counter + 1) ≡ raised m
      → is_route_error m ≡ true
      → attempt c (suc n) t ≡ failed m t
  unfolding try_client
  try_client-route c n t m e r = ground arith

  try_client-again :
      (c : C) (n : ℕ) (t : Tried J) (m : String)
      → ask c (t.counter + 1) ≡ raised m
      → is_route_error m ≡ false
      → attempt c (suc n) t ≡ attempt c n (failed m t)
  unfolding try_client
  try_client-again c n t m e r = ground arith

  -- The client, if it is asked at all.
  abbrev asked_in : C → ℕ → List C
  asked_in c zero = []
  asked_in c (suc n) = c ∷ []

  try_client-IsTried :
      (c : C) (cs : List C) (n : ℕ) (t : Tried J)
      → t.judgment ≡ none
      → IsTried (c ∷ cs) (asked_in c n) n t (attempt c n t)
  unfolding try_client
  try_client-IsTried c cs zero t h = record {
    later = omega arith;
    below = omega arith;
    result = inr (h, tt);
  }
  try_client-IsTried c cs (suc n) t h = elim (Attempt-cases (ask c (t.counter + 1))) [
    | inl (j, e) ↦
        subst (IsTried (c ∷ cs) (c ∷ []) (suc n) t) (sym (try_client-answered c n t j e)) (record {
          later = omega arith;
          below = omega arith;
          result = inl (j, c, Memᴰ.head refl, refl, e);
        })
    | inr (m, e) ↦ elim (Bool-cases (is_route_error m)) [
      | inl r ↦
          subst (IsTried (c ∷ cs) (c ∷ []) (suc n) t) (sym (try_client-route c n t m e r)) (record {
            later = omega arith;
            below = omega arith;
            result = inr (refl, ((t.counter + 1, omega arith, omega arith, m, e), tt));
          })
      | inr r ↦
          let v = try_client-IsTried c cs n (failed m t) refl in
          subst (IsTried (c ∷ cs) (c ∷ []) (suc n) t) (sym (try_client-again c n t m e r)) (record {
            later = omega (arith, v.later);
            below = omega (arith, v.below);
            result = elim v.result [
              | inl found ↦ inl found
              | inr (none_yet, _) ↦
                  inr (none_yet, ((t.counter + 1, omega arith, omega (arith, v.later), m, e), tt))
            ];
          })
    ]
  ]

  -- A failure stays one between an earlier and a later state.
  FailedBetween-widen :
      (t t' u' u : Tried J)
      → t.counter ≤ t'.counter
      → u'.counter ≤ u.counter
      → (c : C) → FailedBetween t' u' c
      → FailedBetween t u c
  FailedBetween-widen t t' u' u low high c (n, above, below, m, e) =
      (n, omega arith, omega arith, m, e)

  try_clients-IsTried :
      (cs : List C) (n : ℕ) (t : Tried J)
      → t.judgment ≡ none
      → IsTried cs cs (length cs * suc n) t (clients_of cs (suc n) t)
  unfolding try_clients
  try_clients-IsTried [] n t h = record {
    later = omega arith;
    below = omega arith;
    result = inr (h, tt);
  }
  try_clients-IsTried (c ∷ cs) n t h =
      let t' = attempt c (suc n) t in
      let first = try_client-IsTried c cs (suc n) t h in
      let times : length (c ∷ cs) * suc n ≡ suc n + length cs * suc n =
        suc-mul (length cs) (suc n) ∙ add_comm (length cs * suc n) (suc n) in
      elim first.result [
        | inl (j, c', m, e, a) ↦
            let stop : clients_of (c ∷ cs) (suc n) t ≡ t' = ground arith in
            subst (IsTried _ _ _ t) (sym stop) (record {
              later = first.later;
              below = omega (arith, times, first.below);
              result = inl (j, c', m, e, a);
            })
        | inr (e, (x, _)) ↦
            let rest = try_clients-IsTried cs n t' e in
            let u = clients_of cs (suc n) t' in
            let go : clients_of (c ∷ cs) (suc n) t ≡ u = ground arith in
            subst (IsTried _ _ _ t) (sym go) (record {
              later = omega (arith, first.later, rest.later);
              below = omega (arith, times, first.below, rest.below);
              result = elim rest.result [
                | inl (j, c', m, f, g) ↦ inl (j, c', Memᴰ.tail m, f, g)
                | inr (e', y) ↦ inr (
                  e',
                  (
                    FailedBetween-widen t t t' u (omega arith) rest.later c x,
                    All-imp (FailedBetween t' u)
                        (FailedBetween-widen t t' u u first.later (omega arith)) cs y,
                  ),
                )
              ];
            })
      ]

  -- What a round comes to.
  abbrev pub IsEnded : List C → ℕ → Tried J → Type 0
  IsEnded clients attempts t =
      (t.counter ≤ length clients * max 1 attempts)
      × (((j : J) × (c : C) × Memᴰ c clients
            × (t.judgment ≡ some j)
            × (ask c t.counter ≡ answered j))
          ⊎ (t.judgment ≡ none)
            × All (λ c. (n : ℕ) × (1 ≤ n) × (n ≤ t.counter) × (m : String) × (ask c n ≡ raised m))
                clients)

  -- A round is judged with at most as many attempts as there are clients times the attempts allowed, of
  -- which each client has at least one. It ends with the judgment that one of the clients gave at the last attempt,
  -- or, as a `RetryError`, with no judgment after every client was asked at one of the attempts and raised an exception.
  pub judge_with_retries-ends :
      (clients : List C) (attempts : ℕ)
      → IsEnded clients attempts (judge_with_retries J C ask is_route_error clients attempts)
  unfolding judge_with_retries
  judge_with_retries-ends clients attempts =
      let start : Tried J = record { judgment = none; counter = 0; last_error = none } in
      let at_least_one : suc (max 1 attempts - 1) ≡ max 1 attempts = ground arith in
      let v =
        subst (λ k. IsTried clients clients (length clients * k) start (clients_of clients k start))
          at_least_one (try_clients-IsTried clients (max 1 attempts - 1) start refl) in
      (omega (arith, v.below), v.result)
