-- ===== src/Proxy/Routing.antt =====
-- tau/proxy/routing.py: the sticky upstream router. Every method runs under the router's lock, so a
-- method is one step on the state. Instants and durations are naturals of some fine unit. The file of
-- disabled upstreams is behind an interface: a state `Store`, what `load` reads and what `add` does.
pub mod Choice
pub mod Leases
pub mod Affinities
use ninja_validator.Base.{
  ℕ, ◌+◌, ◌-◌, ◌*◌, ◌%◌, min, String, Bool, true, false, not, ◌&&◌, ◌||◌, Option, none, some, List,
  [], ◌∷◌, ltb, leb, eqb, ◌==◌, string_key, is_some, contains, keep, length, get_elem?,
  if◌then◌else◌,
}
use ninja_validator.Base.Dict.{Dict, lookup, lookup_or, insert}

-- `DisabledUpstreamStore`, as the router uses it.
pub record DisabledStores : Type 1 where
  pub Store : Type 0
  pub load : Store → List String
  pub add : String → Store → Store

pub record EndpointState : Type 0 where
  pub in_flight : ℕ
  pub failures : ℕ
  pub cooldown_until : ℕ

pub record AffinityEntry : Type 0 where
  pub base_url : String
  pub expires_at : ℕ

abbrev pub fresh_endpoint : EndpointState
fresh_endpoint = record { in_flight = 0; failures = 0; cooldown_until = 0 }

abbrev pub state_of : String → Dict String EndpointState → EndpointState
state_of url states = lookup_or fresh_endpoint url states

-- `_state_for`: the entry is made if it is missing.
abbrev pub ensure : String → Dict String EndpointState → Dict String EndpointState
ensure url states = insert url (state_of url states) states

unfoldable pub ensure_all : List String → Dict String EndpointState → Dict String EndpointState
ensure_all [] states = states
ensure_all (u ∷ us) states = ensure_all us (ensure u states)

-- `is_upstream_infra_failure`
unfoldable pub is_upstream_infra_failure : Option ℕ → Option String → Bool
is_upstream_infra_failure none error = is_some error
is_upstream_infra_failure (some code) error =
    leb 500 code
    || (eqb code 401 || (eqb code 402 || (eqb code 403 || (eqb code 408 || eqb code 429))))

-- The least load among the candidates; the list is not empty where the source calls `min`.
unfoldable pub min_in_flight : Dict String EndpointState → List String → ℕ
min_in_flight states [] = 0
min_in_flight states (u ∷ []) = (state_of u states).in_flight
min_in_flight states (u ∷ v ∷ us) =
    min (state_of u states).in_flight (min_in_flight states (v ∷ us))

unfoldable pub is_least : Dict String EndpointState → ℕ → String → Bool
is_least states least url = eqb (state_of url states).in_flight least

-- `key=lambda key: self._affinities[key].expires_at`: the first of the least.
unfoldable pub oldest_key : Dict String AffinityEntry → Option (String × ℕ)
oldest_key [] = none
oldest_key ((k, e) ∷ es) = elim (oldest_key es) [
  | none ↦ some (k, e.expires_at)
  | some (j, t) ↦ if ltb t e.expires_at then some (j, t) else some (k, e.expires_at)
]

-- `pop(key, None)`
unfoldable pub pop : String → Dict String AffinityEntry → Dict String AffinityEntry
pop key [] = []
pop key ((k, e) ∷ es) = if k == key then es else (k, e) ∷ pop key es

abbrev pub or_else : List String → List String → List String
or_else [] ys = ys
or_else (x ∷ xs) ys = x ∷ xs

abbrev pub urls_of : Dict String EndpointState → List String
urls_of [] = []
urls_of ((u, s) ∷ ss) = u ∷ urls_of ss

-- `self._state_for(url).in_flight += 1`
abbrev pub bump : String → Dict String EndpointState → Dict String EndpointState
bump url states =
    let s = state_of url states in insert url (record s { in_flight = s.in_flight + 1 }) states

abbrev pub key_or_empty : Option String → String
key_or_empty none = ""
key_or_empty (some k) = k

module _ (ds : DisabledStores) where
  open ds use {Store, load, add}

  -- `SmartUpstreamRouter`
  pub record Router : Type 0 where
    pub affinity_ttl : ℕ
    pub cooldown : ℕ
    pub max_affinities : ℕ
    pub affinity_load_slack : ℕ
    pub disabled_store : Option Store
    pub permanent_disable_failures : ℕ
    pub states : Dict String EndpointState
    pub affinities : Dict String AffinityEntry
    pub permanently_disabled : List String
    pub cursor : ℕ

  -- `reset`
  unfoldable pub reset : Router → Router
  reset r = record r {
    states = [];
    affinities = [];
    permanently_disabled = [];
    disabled_store = none;
    cursor = 0;
  }

  -- `configure_disabled_store`
  unfoldable pub configure_disabled_store : Option Store → Router → Router
  configure_disabled_store store r = record r { disabled_store = store; permanently_disabled = [] }

  -- `_disabled_locked`: whether a url is in the set
  unfoldable pub is_disabled : Router → String → Bool
  is_disabled r url =
      contains url r.permanently_disabled
      || elim r.disabled_store [ none ↦ false | some store ↦ contains url (load store) ]

  -- `_enabled_base_urls_locked`
  unfoldable pub enabled_base_urls : Router → List String → List String
  enabled_base_urls r base_urls = or_else (keep (λ u. not (is_disabled r u)) base_urls) base_urls

  -- `_expire_affinities_locked`
  unfoldable pub expire_affinities : ℕ → Router → Router
  expire_affinities now r = record r {
    affinities = keep (λ e. ltb now e.1.expires_at) r.affinities;
  }

  -- The candidates of `acquire`: the enabled urls that are not cooling down, or else all enabled.
  unfoldable pub candidates_of : ℕ → Dict String EndpointState → List String → List String
  candidates_of now states enabled =
      or_else (keep (λ u. leb (state_of u states).cooldown_until now) enabled) enabled

  -- `_preferred_locked` for the entry of a key: the url, if the entry still serves.
  unfoldable pub entry_serves : Router → ℕ → List String → List String → AffinityEntry → Bool
  entry_serves r now base_urls candidates entry =
      not (leb entry.expires_at now)
      && (contains entry.base_url base_urls
          && (contains entry.base_url candidates
              && leb (state_of entry.base_url r.states).in_flight
                  (min_in_flight r.states candidates + r.affinity_load_slack)))

  -- `_preferred_locked`; a key that is missing or empty prefers nothing.
  unfoldable pub preferred :
      Router → ℕ → Option String → List String → List String → Option AffinityEntry
  unfolding entry_serves
  preferred r now none base_urls candidates = none
  preferred r now (some key) base_urls candidates = elim (lookup key r.affinities) [
    | none ↦ none
    | some entry ↦
        if not (key == "") && entry_serves r now base_urls candidates entry
        then some entry
        else none
  ]

  -- `_least_loaded_locked`: the url that the cursor picks.
  unfoldable pub least_loaded : Router → List String → String
  unfolding is_least
  least_loaded r candidates =
      let least = keep (is_least r.states (min_in_flight r.states candidates)) candidates in
      elim (get_elem? least (r.cursor % length least)) [ none ↦ "" | some url ↦ url ]

  -- The end of `acquire`, for the entry that `_preferred_locked` found.
  unfoldable pub select :
      ℕ → Option String → List String → Router → Option AffinityEntry → String × Router
  unfolding least_loaded
  select now key candidates r (some entry) = (
    entry.base_url,
    record r {
      affinities =
          insert (key_or_empty key) (record entry { expires_at = now + r.affinity_ttl })
            r.affinities;
      states = bump entry.base_url r.states;
    },
  )
  select now key candidates r none =
      let url = least_loaded r candidates in
      (url, record r { cursor = r.cursor + 1; states = bump url r.states })

  -- The router and the candidates when `acquire` comes to choose.
  unfoldable pub prepare : ℕ → List String → Router → Router × List String
  unfolding expire_affinities enabled_base_urls candidates_of
  prepare now base_urls r =
      let r' = expire_affinities now r in
      let enabled = enabled_base_urls r' base_urls in
      let states' = ensure_all enabled r'.states in
      (record r' { states = states' }, candidates_of now states' enabled)

  -- `acquire`; `none` is the `ValueError` for no url.
  unfoldable pub acquire : ℕ → List String → Option String → Router → Option (String × Router)
  unfolding prepare preferred select
  acquire now [] key r = none
  acquire now (u ∷ us) key r =
      let (r', candidates) = prepare now (u ∷ us) r in
      some (select now key candidates r' (preferred r' now key (u ∷ us) candidates))

  -- The eviction of `_remember_affinity_locked`; `none` is the `ValueError` of `min` on no entry.
  unfoldable pub make_room : Router → Option (Dict String AffinityEntry)
  make_room r =
      if leb r.max_affinities (length r.affinities)
      then elim (oldest_key r.affinities) [ none ↦ none | some (k, t) ↦ some (pop k r.affinities) ]
      else some r.affinities

  -- `_remember_affinity_locked`
  unfoldable pub remember_locked : ℕ → String → String → Router → Option Router
  unfolding make_room
  remember_locked now key url r = elim (make_room r) [
    | none ↦ none
    | some entries ↦
        let entry : AffinityEntry = record { base_url = url; expires_at = now + r.affinity_ttl } in
        some (record r { affinities = insert key entry entries })
  ]

  -- `remember_affinity`
  unfoldable pub remember_affinity : ℕ → Option String → String → Router → Option Router
  unfolding remember_locked
  remember_affinity now none url r = some r
  remember_affinity now (some key) url r =
      if key == "" then some r else remember_locked now key url r

  -- `release`: `max(0, n - 1)` is the truncated `-`.
  unfoldable pub release : String → Router → Router
  release url r =
      let s = state_of url r.states in
      record r { states = insert url (record s { in_flight = s.in_flight - 1 }) r.states }

  -- `configured_urls` and `currently_enabled` of `_disable_permanently_locked`
  unfoldable pub currently_enabled : Router → Option (List String) → List String
  currently_enabled r base_urls =
      let configured : List String = elim base_urls [
        | none ↦ urls_of r.states
        | some us ↦ or_else us (urls_of r.states)
      ] in
      keep (λ u. not (is_disabled r u)) configured

  -- `_disable_permanently_locked`
  unfoldable pub disable_permanently : String → Option (List String) → Router → Router
  unfolding currently_enabled
  disable_permanently url base_urls r = elim r.disabled_store [
    | none ↦ r
    | some store ↦
        if contains url (currently_enabled r base_urls)
          && leb (length (currently_enabled r base_urls)) 1
        then r
        else record r {
          permanently_disabled = url ∷ r.permanently_disabled;
          affinities = keep (λ e. not (e.1.base_url == url)) r.affinities;
          disabled_store = some (add url store);
        }
  ]

  -- The failing branch of `record_result`.
  unfoldable pub record_failure : ℕ → String → Option (List String) → Router → Router
  unfolding disable_permanently
  record_failure now url base_urls r =
      let s = state_of url r.states in
      let n = s.failures + 1 in
      let s' = record s { failures = n; cooldown_until = now + r.cooldown * min n 4 } in
      let r' = record r { states = insert url s' r.states } in
      if leb r.permanent_disable_failures n then disable_permanently url base_urls r' else r'

  abbrev pub is_success : Option ℕ → Option String → Bool
  is_success none error = false
  is_success (some code) error = ltb code 400 && not (is_some error)

  -- `record_result`
  unfoldable pub record_result :
      ℕ → String → Option ℕ → Option String → Option (List String) → Router → Router
  unfolding record_failure is_upstream_infra_failure
  record_result now url status error base_urls r =
      let r' = record r { states = ensure url r.states } in
      let s = state_of url r.states in
      let healed = record s { failures = 0; cooldown_until = 0 } in
      if is_upstream_infra_failure status error
      then record_failure now url base_urls r'
      else if is_success status error
      then record r { states = insert url healed r.states }
      else r'
