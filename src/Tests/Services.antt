-- ===== src/Tests/Services.antt =====
-- Runs of the weights, of the upstream router and of the blinding.
use ninja_validator.Base.{
  Bool, ℕ, ◌+◌, ◌-◌, ◌≡◌, ◌≢◌, if◌then◌else◌, ◌==◌, string_key, ◌≤◌, ◌<◌, ◌⊎◌, refl, true, false,
  not, String, none, some, List, [], ◌∷◌, arith, inl, String-discrete, keep, contains, string_key,
  leb,
}
use native.Mathlib.Decide.{ℕ_discrete}
use ninja_validator.Weights.Compute.{
  WeightPlan, RecentKing, MetagraphView, compute_weights, shares_for, plan_of, give_from, give,
  uid_of_slot, no_weights,
}
use ninja_validator.Weights.Compute.Conservation.{total, Distinct, weights_whole}
use ninja_validator.Arena.Tables.{King, Submission}
use ninja_validator.Weights.Setter.{
  PollState, SubnetParams, WeightSetterConfig, step, set, decision, recent_kings, king_rows,
  latest_first, place_king, hotkey_of,
}
use ninja_validator.Weights.Setter.Outcomes.{step_whole}
use ninja_validator.Judging.Blinding.{CandidateWinner, Winner, RawVerdict}
use ninja_validator.Judging.Blinding.Fair.{outcome, unblind-blind}
use ninja_validator.Tests.{hundredths}
use ninja_validator.Weights.Schedule.{should_set, blocks_until_next_epoch}
use ninja_validator.Weights.Schedule.Earliest.{next_try_exact}
use ninja_validator.Proxy.Routing.{
  DisabledStores, Router, ensure_all, acquire, prepare, release, is_disabled, enabled_base_urls,
  state_of, min_in_flight,
}
use ninja_validator.Proxy.Routing.Choice.{acquire_choice}
use ninja_validator.Proxy.Routing.Leases.{release-acquire}

abbrev kings : List RecentKing
kings = record { king_id = "a"; hotkey = "ha" } ∷ record { king_id = "b"; hotkey = "gone" } ∷ []

abbrev metagraph : MetagraphView
metagraph = record { uids = 0 ∷ 1 ∷ 2 ∷ []; uid_by_hotkey = ("ha", 2) ∷ ("hc", 1) ∷ [] }

-- The king "b" is not in the metagraph: its share is burnt on uid 0.
two_kings : (compute_weights kings metagraph 5 0).weights ≡ 40 ∷ 0 ∷ 60 ∷ []
unfolding compute_weights plan_of give_from shares_for String-discrete ℕ_discrete give uid_of_slot
    no_weights
two_kings = refl

two_kings_submittable : (compute_weights kings metagraph 5 0).submittable ≡ true
unfolding compute_weights plan_of give_from shares_for String-discrete ℕ_discrete give uid_of_slot
    no_weights
two_kings_submittable = refl

uids-Distinct : Distinct metagraph.uids
unfolding ℕ_discrete
uids-Distinct = (refl, (refl, (refl, tt)))

weights_whole_example : total (compute_weights kings metagraph 5 0).weights ≡ 100
weights_whole_example =
    weights_whole kings metagraph 5 0 uids-Distinct two_kings_submittable (inl (omega arith))

-- At block 1000 of subnet 66 the limit still lasts 20 blocks and the epoch's end is far.
next_try_exact_example :
    let d = should_set 1000 360 66 80 100 10 in
    (1000 ≤ d.next_try_block)
    × ((should_set
          (1000 + (d.next_try_block - 1000))
          360
          66
          (80 + (d.next_try_block - 1000))
          100
          10).proceed
        ≡ true)
    × ((k : ℕ)
        → 1000 + k < d.next_try_block
        → (should_set (1000 + k) 360 66 (80 + k) 100 10).proceed ≡ false)
next_try_exact_example = next_try_exact 1000 360 66 80 100 10

-- Disabled urls as a plain list.
abbrev listed : DisabledStores
listed = record { Store = List String; load = λ urls. urls; add = λ url urls. url ∷ urls }

abbrev router : Router listed
router = record {
  affinity_ttl = 100;
  cooldown = 30;
  max_affinities = 8;
  affinity_load_slack = 0;
  disabled_store = some ("b" ∷ []);
  permanent_disable_failures = 3;
  states = ("a", record { in_flight = 2; failures = 0; cooldown_until = 0 }) ∷ [];
  affinities = [];
  permanently_disabled = [];
  cursor = 0;
}

abbrev after : Router listed
after = record router {
  states =
      ("a", record { in_flight = 2; failures = 0; cooldown_until = 0 })
      ∷ ("c", record { in_flight = 1; failures = 0; cooldown_until = 0 })
      ∷ [];
  cursor = 1;
}

-- "b" is disabled and "a" is busier than "c".
chooses_c : acquire listed 50 ("a" ∷ "b" ∷ "c" ∷ []) none router ≡ some ("c", after)
unfolding acquire is_disabled String-discrete ensure_all min_in_flight
chooses_c = refl

abbrev urls : List String
urls = "a" ∷ "b" ∷ "c" ∷ []

acquire_choice_example :
    let (p, candidates) = prepare listed 50 urls router in
    (url : String) × (r' : Router listed) × (acquire listed 50 urls none router ≡ some (url, r'))
    × (contains url urls ≡ true)
    × ((is_disabled listed router url ≡ false)
        ⊎ (keep (λ x. not (is_disabled listed router x)) urls ≡ []))
    × (((state_of url p.states).cooldown_until ≤ 50)
        ⊎ (keep
              (λ x. leb (state_of x p.states).cooldown_until 50)
              (enabled_base_urls listed router urls)
            ≡ []))
    × ((state_of url p.states).in_flight ≤ min_in_flight p.states candidates + 0)
acquire_choice_example = acquire_choice listed 50 "a" ("b" ∷ "c" ∷ []) router none

release-acquire_example :
    ((state_of "c" after.states).in_flight ≡ 1)
    × ((v : String)
        → v ≢ "c"
        → (state_of v after.states).in_flight ≡ (state_of v router.states).in_flight)
    × ((v : String)
        → (state_of v (release listed "c" after).states).in_flight
          ≡ (state_of v router.states).in_flight)
unfolding String-discrete
release-acquire_example =
    release-acquire listed 50 ("a" ∷ "b" ∷ "c" ∷ []) none router after "c" chooses_c

-- Block 1000 of a subnet with no tempo, no rate limit and burn mode off.
abbrev poll : PollState
poll = record { current_block = 1000; blocks_since_last_update = 500 }

abbrev params : SubnetParams
params = record { uid = 2; tempo = 0; weights_rate_limit = 100 }

abbrev setter : WeightSetterConfig
setter = record { netuid = 66; window = 5; burn_uid = 0; set_margin = 12; burn_mode = false }

abbrev any_vector : List ℕ → List ℕ → Bool
any_vector uids weights = true

abbrev a_king : List King
a_king = record { king_id = "a"; king_from = 10 } ∷ []

abbrev a_submission : List Submission
a_submission = record { submission_id = "a"; hotkey = "ha"; block = 7; status_id = none } ∷ []

sets : (step poll params setter metagraph a_king a_submission any_vector).action ≡ set
unfolding step should_set blocks_until_next_epoch compute_weights plan_of give_from shares_for
    recent_kings king_rows latest_first place_king hotkey_of String-discrete ℕ_discrete give
    uid_of_slot no_weights
sets = refl

step_whole_example :
    ((decision poll params setter metagraph a_king a_submission any_vector).proceed ≡ true)
    × (p : WeightPlan) × ((step poll params setter metagraph a_king a_submission any_vector).plan
        ≡ some p)
    × (any_vector p.uids p.weights ≡ true)
    × (total p.weights ≡ 100)
step_whole_example =
    step_whole poll params setter metagraph a_king a_submission any_vector uids-Distinct
      (omega arith) sets

-- A judge that prefers the patch "y".
abbrev partial : String → String → RawVerdict hundredths
partial a b =
    if b == "y"
    then record { winner = CandidateWinner.candidate_b; score_a = 30; score_b = 90; rationale = "" }
    else record { winner = CandidateWinner.candidate_a; score_a = 90; score_b = 30; rationale = "" }

-- The challenger's patch is shown first.
unblind-blind_example :
    outcome hundredths (λ _. 7) partial "seed" "x" "y"
    ≡ record { winner = Winner.challenger; king_score = 30; challenger_score = 90 }
unfolding String-discrete
unblind-blind_example = unblind-blind hundredths (λ _. 7) partial "seed" "x" "y" refl
