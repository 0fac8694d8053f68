-- ===== src/Screener/Runner/Routes.antt =====
-- To which routes a screening makes its calls.
use ninja_validator.Base.{
  ℕ, ◌≡◌, refl, subst, String, Bool, true, false, Option, none, some, List, [], ◌∷◌, All, nat_key,
  contains, get_elem?, arith, if◌then◌else◌,
}
use ninja_validator.Screener.Runner.{
  scored, timed_out, raised, Client, Calls, count_call, is_route_error, disable,
}

module _ {A : Type 0} (lower : List ℕ → List ℕ) (clients : List (Client A)) where
  -- Whether a call was answered with an error of its route.
  abbrev pub is_route_failure : Option (Client A) → ℕ → Bool
  is_route_failure none attempt = false
  is_route_failure (some client) attempt = elim (client attempt) [
    | scored _ ↦ false
    | timed_out ↦ false
    | raised error ↦ is_route_error lower error
  ]

  -- No earlier call to this route was so answered.
  abbrev pub IsOpen : ℕ → ℕ × ℕ → Type 0
  IsOpen route (attempt, earlier) =
      earlier ≡ route → is_route_failure (get_elem? clients route) attempt ≡ false

  -- Of calls, the last one first: none is to a route that answered an earlier one with an error of its route.
  unfoldable pub AreOpen : List (ℕ × ℕ) → Type 0
  AreOpen [] = Unit
  AreOpen ((attempt, route) ∷ earlier) = All (IsOpen route) earlier × AreOpen earlier

  -- Each call so answered has its route disabled.
  abbrev Disables : List ℕ → ℕ × ℕ → Type 0
  Disables routes (attempt, route) =
      is_route_failure (get_elem? clients route) attempt ≡ true → contains route routes ≡ true

  pub record IsTracked (c : Calls) : Type 0 where
    pub are_open : AreOpen c.made
    pub are_disabled : All (Disables c.disabled_routes) c.made

  pub opened :
      (routes : List ℕ) (route : ℕ) (made : List (ℕ × ℕ))
      → contains route routes ≡ false
      → All (Disables routes) made
      → All (IsOpen route) made
  opened routes route [] e h = tt
  opened routes route ((k, i) ∷ made) e (a, h) = (
    λ same.
        let at_route : is_route_failure (get_elem? clients route) k ≡ true
            → contains route routes ≡ true =
          subst (λ r. is_route_failure (get_elem? clients r) k ≡ true → contains r routes ≡ true)
            same a in
        elim (is_route_failure (get_elem? clients route) k)
            as (λ b. is_route_failure (get_elem? clients route) k ≡ b → b ≡ false) [
              | true ↦ λ f. absurd (ground (arith, at_route f))
              | false ↦ λ f. refl
            ]
          refl,
    opened routes route made e h,
  )

  -- A disabled route more keeps what the others say.
  Disables-cons :
      (route : ℕ) (routes : List ℕ) (made : List (ℕ × ℕ))
      → All (Disables routes) made
      → All (Disables (route ∷ routes)) made
  Disables-cons route routes [] h = tt
  Disables-cons route routes ((k, i) ∷ made) (a, h) =
      (λ f. ground (arith, a f), Disables-cons route routes made h)

  pub called-IsTracked :
      (attempt route : ℕ) (c : Calls) (client : Client A)
      → get_elem? clients route ≡ some client
      → contains route c.disabled_routes ≡ false
      → IsTracked c
      → is_route_failure (some client) attempt ≡ false
      → IsTracked (count_call attempt route c)
  unfolding AreOpen
  called-IsTracked attempt route c client at e h ok = record {
    are_open = (opened c.disabled_routes route c.made e h.are_disabled, h.are_open);
    are_disabled = (λ f. absurd (ground (arith, at, ok, f)), h.are_disabled);
  }

  pub raised-IsTracked :
      (attempt route : ℕ) (error : String) (c : Calls) (client : Client A)
      → get_elem? clients route ≡ some client
      → contains route c.disabled_routes ≡ false
      → IsTracked c
      → client attempt ≡ raised error
      → IsTracked (disable lower route error (count_call attempt route c))
  unfolding AreOpen disable
  raised-IsTracked attempt route error c client at e h raises =
      let made = (attempt, route) ∷ c.made in
      elim (is_route_error lower error)
          as (λ b.
            is_route_error lower error ≡ b
            → IsTracked (
                if b
                then record (count_call attempt route c) {
                  disabled_routes = route ∷ c.disabled_routes;
                }
                else count_call attempt route c)) [
                  | true ↦ λ f. record {
                    are_open = (opened c.disabled_routes route c.made e h.are_disabled, h.are_open);
                    are_disabled = (
                      λ _. ground arith,
                      Disables-cons route c.disabled_routes c.made h.are_disabled,
                    );
                  }
                  | false ↦ λ f.
                      called-IsTracked attempt route c client at e h (ground (arith, raises, f))
                ]
        refl
