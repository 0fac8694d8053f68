-- ===== src/Screener/Runner/Bounds.antt =====
-- How many calls a screening makes, and how it ends.
use ninja_validator.Base.{
  ℕ, zero, suc, ◌+◌, ◌*◌, ◌≤◌, ◌≡◌, refl, ap, ◌∙◌, subst, String, Bool, true, false, Option, some,
  List, [], ◌∷◌, nat_key, contains, length, get_elem?, max, arith,
}
use ninja_validator.Screener.Runner.{
  CallResult, scored, timed_out, raised, Client, Calls, no_calls, ScreenRun, finished, exhausted,
  out_of_time, Pass, ended, going_on, count_call, is_last, disable, try_routes, try_attempts,
  screen_with_fallback,
}
use ninja_validator.Screener.Runner.Routes.{
  AreOpen, IsTracked, opened, called-IsTracked, raised-IsTracked,
}

module _ {A : Type 0} (lower : List ℕ → List ℕ) (clients : List (Client A)) where
  -- The last call was answered with the score.
  abbrev pub IsAnswer : A → List (ℕ × ℕ) → Type 0
  IsAnswer a [] = ⊥
  IsAnswer a ((attempt, route) ∷ earlier) =
      (client : Client A) × (get_elem? clients route ≡ some client) × (client attempt ≡ scored a)

  module _ (last_call : Option ℕ) where
    abbrev pub Ends : ScreenRun A → Calls → Type 0
    Ends (finished a) c = IsAnswer a c.made
    Ends exhausted c = Unit {0}
    Ends out_of_time c = last_call ≡ some (length c.made)

    abbrev IsGood : ℕ → Pass A → Type 0
    IsGood n (ended run c) = AreOpen lower clients c.made × (length c.made ≤ n) × Ends run c
    IsGood n (going_on c) = IsTracked lower clients c × (length c.made ≤ n)

    -- The rest of a pass once a call is made, and once it is answered.
    abbrev after_answer : ℕ → ℕ → List (Client A) → Calls → CallResult A → Pass A
    after_answer attempt route suffix c' result = elim result [
      | scored a ↦ ended (finished a) c'
      | timed_out ↦ try_routes lower last_call attempt (suc route) suffix c'
      | raised error ↦
          try_routes lower last_call attempt (suc route) suffix (disable lower route error c')
    ]

    abbrev after_call : ℕ → ℕ → List (Client A) → Calls → CallResult A → Bool → Pass A
    after_call attempt route suffix c' result over = elim over [
      | true ↦ ended out_of_time c'
      | false ↦ after_answer attempt route suffix c' result
    ]

    length-disable :
        (route : ℕ) (error : String) (c : Calls)
        → length (disable lower route error c).made ≡ length c.made
    unfolding disable
    length-disable route error c = ground arith

    called-IsGood :
        (attempt route n : ℕ) (suffix : List (Client A)) (c : Calls) (client : Client A)
        (result : CallResult A)
        → client attempt ≡ result
        → get_elem? clients route ≡ some client
        → contains route c.disabled_routes ≡ false
        → IsTracked lower clients c
        → length c.made + suc (length suffix) ≤ n
        → ((c' : Calls)
            → IsTracked lower clients c'
            → length c'.made + length suffix ≤ n
            → IsGood n (try_routes lower last_call attempt (suc route) suffix c'))
        → IsGood n (after_answer attempt route suffix (count_call attempt route c) result)
    unfolding AreOpen
    called-IsGood attempt route n suffix c client (scored a) r here e h room ih = (
      (opened lower clients c.disabled_routes route c.made e h.are_disabled, h.are_open),
      omega arith,
      (client, here, r),
    )
    called-IsGood attempt route n suffix c client timed_out r here e h room ih =
        ih (count_call attempt route c)
          (called-IsTracked lower clients attempt route c client here e h (ground (arith, r)))
          (omega arith)
    called-IsGood attempt route n suffix c client (raised error) r here e h room ih =
        ih (disable lower route error (count_call attempt route c))
          (raised-IsTracked lower clients attempt route error c client here e h r)
          (omega (arith, length-disable route error (count_call attempt route c)))

    try_routes-IsGood :
        (attempt route n : ℕ) (suffix : List (Client A)) (c : Calls)
        → ((i : ℕ) → get_elem? clients (route + i) ≡ get_elem? suffix i)
        → IsTracked lower clients c
        → length c.made + length suffix ≤ n
        → IsGood n (try_routes lower last_call attempt route suffix c)
    unfolding try_routes AreOpen
    try_routes-IsGood attempt route n [] c at h room = (h, omega arith)
    try_routes-IsGood attempt route n (client ∷ suffix) c at h room =
        let c' = count_call attempt route c in
        let here : get_elem? clients route ≡ some client =
          ap (get_elem? clients) (omega arith) ∙ at 0 in
        let next : (i : ℕ) → get_elem? clients (suc route + i) ≡ get_elem? suffix i =
          λ i. ap (get_elem? clients) (omega arith) ∙ at (suc i) in
        let ih =
          λ (x : Calls) (t : IsTracked lower clients x) (l : length x.made + length suffix ≤ n).
            try_routes-IsGood attempt (suc route) n suffix x next t l in
        elim (contains route c.disabled_routes)
            as (λ b.
              contains route c.disabled_routes ≡ b
              → IsGood n (elim b as (λ _. Pass A) [
                | true ↦ try_routes lower last_call attempt (suc route) suffix c
                | false ↦
                    after_call attempt route suffix c' (client attempt)
                      (is_last last_call (length c'.made))
              ])) [
                | true ↦ λ e. ih c h (omega arith)
                | false ↦ λ e.
                    elim (is_last last_call (length c'.made))
                        as (λ b.
                          is_last last_call (length c'.made) ≡ b
                          → IsGood n (after_call attempt route suffix c' (client attempt) b)) [
                            | true ↦ λ f. (
                              (
                                opened lower clients c.disabled_routes route c.made e
                                    h.are_disabled,
                                h.are_open,
                              ),
                              omega arith,
                              ground arith,
                            )
                            | false ↦ λ f.
                                called-IsGood attempt route n suffix c client (client attempt) refl
                                  here e h (omega arith) ih
                          ]
                      refl
              ]
          refl

    -- What a screening comes to, with n calls at most.
    pub record IsScreening (n : ℕ) (run : ScreenRun A) (c : Calls) : Type 0 where
      pub are_open : AreOpen lower clients c.made
      pub few : length c.made ≤ n
      pub ends : Ends run c

    after_pass :
        (attempt left n : ℕ) (pass : Pass A)
        → IsGood n pass
        → ((c : Calls)
            → IsTracked lower clients c
            → length c.made ≤ n
            → IsScreening
                (n + left * length clients)
                (try_attempts lower last_call (suc attempt) left clients c).0
                (try_attempts lower last_call (suc attempt) left clients c).1)
        → let result : ScreenRun A × Calls = elim pass [
          | ended run c' ↦ (run, c')
          | going_on c' ↦ try_attempts lower last_call (suc attempt) left clients c'
        ] in
          IsScreening (n + left * length clients) result.0 result.1
    after_pass attempt left n (ended run c) (a, b, d) ih = record {
      are_open = a;
      few = omega arith;
      ends = d;
    }
    after_pass attempt left n (going_on c) (a, b) ih = ih c a b

    try_attempts-IsScreening :
        (attempt left n : ℕ) (c : Calls)
        → IsTracked lower clients c
        → length c.made ≤ n
        → IsScreening
            (n + left * length clients)
            (try_attempts lower last_call attempt left clients c).0
            (try_attempts lower last_call attempt left clients c).1
    unfolding try_attempts
    try_attempts-IsScreening attempt zero n c h l = record {
      are_open = h.are_open;
      few = omega arith;
      ends = tt;
    }
    try_attempts-IsScreening attempt (suc left) n c h l =
        let size = length clients in
        let pass = try_routes lower last_call attempt 0 clients c in
        let good : IsGood (n + size) pass =
          try_routes-IsGood attempt 0 (n + size) clients c
            (λ i. ap (get_elem? clients) (omega arith)) h (omega arith) in
        let same : n + size + left * size ≡ n + suc left * size = grind arith in
        subst
          (λ m.
            IsScreening m (try_attempts lower last_call attempt (suc left) clients c).0
              (try_attempts lower last_call attempt (suc left) clients c).1)
          same
          (after_pass attempt left (n + size) pass good
            (λ x t k. try_attempts-IsScreening (suc attempt) left (n + size) x t k))

    -- A screening makes at most as many calls as there are clients times the attempts, of which it allows each client one at
    -- least, and none to a route that answered an earlier call with an error of its route. If it ends with a score, its last call
    -- was answered with it, and it runs out of time only during its last call.
    pub screen_with_fallback-IsScreening :
        (attempts : ℕ)
        → IsScreening
            (max 1 attempts * length clients)
            (screen_with_fallback lower last_call attempts clients).0
            (screen_with_fallback lower last_call attempts clients).1
    unfolding screen_with_fallback AreOpen
    screen_with_fallback-IsScreening attempts =
        let result = try_attempts lower last_call 1 (max 1 attempts) clients no_calls in
        let same : 0 + max 1 attempts * length clients ≡ max 1 attempts * length clients =
          omega arith in
        subst (λ m. IsScreening m result.0 result.1) same
          (try_attempts-IsScreening 1 (max 1 attempts) 0 no_calls
            (record { are_open = tt; are_disabled = tt }) (omega arith))
