-- ===== src/Proxy/Routing/Leases.antt =====
-- How `acquire` and `release` count the requests in flight.
use ninja_validator.Base.{
  ◌∙◌, subst, sym, ap, ℕ, ◌+◌, ◌≡◌, ◌≢◌, refl, String, Option, none, some, List, [], ◌∷◌, arith,
  string_key,
}
use ninja_validator.Base.Dict.{Dict, insert, lookup-insert_self, lookup-insert_ne}
use ninja_validator.Proxy.Routing.{
  DisabledStores, EndpointState, AffinityEntry, state_of, ensure, ensure_all, Router, bump,
  preferred, select, prepare, acquire, release,
}

state_of-insert_self :
    (url : String) (s : EndpointState) (states : Dict String EndpointState)
    → state_of url (insert url s states) ≡ s
state_of-insert_self url s states = ground (arith, lookup-insert_self url s states)

state_of-insert_ne :
    (url v : String) (s : EndpointState) (states : Dict String EndpointState)
    → v ≢ url
    → state_of v (insert url s states) ≡ state_of v states
state_of-insert_ne url v s states ne = ground (arith, lookup-insert_ne url v s states)

-- Making the entries that are missing changes no state.
state_of-ensure_all :
    (v : String) (urls : List String) (states : Dict String EndpointState)
    → state_of v (ensure_all urls states) ≡ state_of v states
unfolding ensure_all
state_of-ensure_all v [] states = refl
state_of-ensure_all v (u ∷ us) states = elim (string_key.dec v u) [
  | yes e ↦
      state_of-ensure_all v us (ensure u states)
      ∙ subst (λ w. state_of w (ensure u states) ≡ state_of w states) (sym e)
          (state_of-insert_self u (state_of u states) states)
  | no ne ↦
      state_of-ensure_all v us (ensure u states)
      ∙ state_of-insert_ne u v (state_of u states) states ne
]

abbrev load_on : String → Dict String EndpointState → ℕ
load_on url states = (state_of url states).in_flight

load_on-bump_self :
    (url : String) (states : Dict String EndpointState)
    → load_on url (bump url states) ≡ load_on url states + 1
load_on-bump_self url states = ap (λ s. s.in_flight) (state_of-insert_self url _ states)

module _ (ds : DisabledStores) where
  select_lem :
      (now : ℕ) (key : Option String) (candidates : List String) (r : Router ds)
      (entry : Option AffinityEntry)
      → let (url, r') = select ds now key candidates r entry in r'.states ≡ bump url r.states
  unfolding select
  select_lem now key candidates r none = refl
  select_lem now key candidates r (some e) = refl

  acquire_states :
      (now : ℕ) (u : String) (us : List String) (key : Option String) (r r' : Router ds)
      (url : String)
      → acquire ds now (u ∷ us) key r ≡ some (url, r')
      → r'.states ≡ bump url (prepare ds now (u ∷ us) r).0.states
  unfolding acquire
  acquire_states now u us key r r' url h =
      ap (λ v. v)
        (ground (
          arith,
          select_lem now key _ (prepare ds now (u ∷ us) r).0 (
              preferred ds (prepare ds now (u ∷ us) r).0 now key (u ∷ us)
                (prepare ds now (u ∷ us) r).1),
        ))

  prepare_states :
      (now : ℕ) (urls : List String) (r : Router ds) (v : String)
      → state_of v (prepare ds now urls r).0.states ≡ state_of v r.states
  unfolding prepare
  prepare_states now urls r v = state_of-ensure_all v _ r.states

  -- A lease: if `acquire` answers with `url`, then one more request is in flight on `url`, no other
  -- upstream's count has changed, and `release` of `url` gives every upstream its count back.
  pub release-acquire :
      (now : ℕ) (urls : List String) (key : Option String) (r r' : Router ds) (url : String)
      → acquire ds now urls key r ≡ some (url, r')
      → (load_on url r'.states ≡ load_on url r.states + 1)
        × ((v : String) → v ≢ url → load_on v r'.states ≡ load_on v r.states)
        × ((v : String) → load_on v (release ds url r').states ≡ load_on v r.states)
  unfolding acquire release
  release-acquire now [] key r r' url h = absurd cc
  release-acquire now (u ∷ us) key r r' url h =
      let p = (prepare ds now (u ∷ us) r).0 in
      let e = acquire_states now u us key r r' url h in
      let same : (v : String) → load_on v p.states ≡ load_on v r.states =
        λ v. ap (λ s. s.in_flight) (prepare_states now (u ∷ us) r v) in
      let up : load_on url r'.states ≡ load_on url r.states + 1 =
        ap (load_on url) e ∙ load_on-bump_self url p.states ∙ ap (λ n. n + 1) (same url) in
      let others : (v : String) → v ≢ url → load_on v r'.states ≡ load_on v r.states = λ v ne.
        ap (load_on v) e
        ∙ ap (λ s. s.in_flight) (state_of-insert_ne url v _ p.states ne)
        ∙ same v in
      (
        up,
        others,
        λ v. elim (string_key.dec v url) [
          | yes q ↦
              subst (λ w. load_on w (release ds url r').states ≡ load_on w r.states) (sym q)
                (ap (λ s. s.in_flight) (state_of-insert_self url _ r'.states) ∙ omega arith)
          | no ne ↦ ap (λ s. s.in_flight) (state_of-insert_ne url v _ r'.states ne) ∙ others v ne
        ],
      )
