-- ===== src/Github/Refs.antt =====
-- tau/github/sampler.py: the sampler's sources of commits. What the clock, the random generator and GitHub answer
-- during an attempt is a parameter; a call that raises a `GitHubRequestError` answers none. The end of the search
-- buffer, where it is popped and extended, is the head of the list.
use Prim.Native.String.{◌++◌ as append}
use ninja_validator.Base.{
  ℕ, ◌+◌, ◌-◌, ◌*◌, ◌%◌, String, Bool, false, not, ◌&&◌, ◌||◌, Option, none, some, List, [], ◌∷◌,
  ◌++◌, reverse, ltb, leb, ◌==◌, string_key, contains, keep, take, length, get_elem?, if◌then◌else◌,
}
use ninja_validator.Github.Commits.{CommitPayload, GitHubConfig, is_code_file, is_lockfile}

-- `_CommitRef`, less the id of its event, which only the candidate's record keeps.
pub record CommitRef : Type 0 where
  pub repo_full_name : String
  pub commit_sha : String

-- `_reject_cache_key`
abbrev pub reject_cache_key : String → String → String
reject_cache_key repo_full_name commit_sha = append repo_full_name (append ":" commit_sha)

-- A commit of a push event, with its changed files.
pub record EventCommit : Type 0 where
  pub sha : Option String
  pub changed_files : List String

pub record PushEvent : Type 0 where
  pub repo : Option String
  pub head : Option String
  pub commits : List EventCommit

-- The state of `CommitSampler`; the reject cache is a set.
pub record CommitSampler : Type 0 where
  pub reject_keys : List String
  pub date_commit_buffer : List CommitRef
  pub date_commit_search_cooldown_until : ℕ
  pub recent_events_cache : Option (ℕ × List PushEvent)

-- `__init__`
abbrev pub new_sampler : CommitSampler
new_sampler = record {
  reject_keys = [];
  date_commit_buffer = [];
  date_commit_search_cooldown_until = 0;
  recent_events_cache = none;
}

-- What an attempt meets: the hits of a search, the push events of a fetch, two random numbers, the
-- payload of a commit, and the clock.
pub record Answers : Type 0 where
  pub now : ℕ
  pub search_hits : List CommitRef
  pub push_events : List PushEvent
  pub event_choice : ℕ
  pub commit_choice : ℕ
  pub commit : String → String → Option CommitPayload

-- `_reject_contains`
abbrev pub reject_contains : CommitRef → CommitSampler → Bool
reject_contains ref s = contains (reject_cache_key ref.repo_full_name ref.commit_sha) s.reject_keys

-- `_reject_add`
unfoldable pub reject_add : GitHubConfig → CommitRef → CommitSampler → CommitSampler
reject_add config ref s =
    let key = reject_cache_key ref.repo_full_name ref.commit_sha in
    let kept =
      if leb config.reject_cache_max_size (length s.reject_keys) then [] else s.reject_keys in
    record s { reject_keys = if contains key kept then kept else key ∷ kept }

-- `_refill_date_commit_buffer_if_needed`
unfoldable pub refill_date_commit_buffer_if_needed :
    GitHubConfig → Answers → CommitSampler → CommitSampler
refill_date_commit_buffer_if_needed config a s =
    let fresh = keep (λ ref. not (reject_contains ref s)) a.search_hits in
    if leb config.buffer_low_watermark (length s.date_commit_buffer)
    then s
    else (if ltb a.now s.date_commit_search_cooldown_until then s else elim fresh [
      | [] ↦ record s { date_commit_search_cooldown_until = a.now + config.search_fail_cooldown }
      | r ∷ rs ↦ record s {
        date_commit_buffer =
            take (config.buffer_high_watermark * 2) (reverse (r ∷ rs) ++ s.date_commit_buffer);
      }
    ])

-- The loop of `_next_from_search`: the first entry that is not rejected, and the buffer after it.
unfoldable pub pop_unrejected : List String → List CommitRef → Option CommitRef × List CommitRef
pop_unrejected rejects [] = (none, [])
pop_unrejected rejects (r ∷ rs) =
    let rest = pop_unrejected rejects rs in
    if contains (reject_cache_key r.repo_full_name r.commit_sha) rejects then rest else (some r, rs)

-- `_next_from_search`
unfoldable pub next_from_search :
    GitHubConfig → Answers → CommitSampler → Option CommitRef × CommitSampler
unfolding refill_date_commit_buffer_if_needed pop_unrejected
next_from_search config a s =
    let s' = refill_date_commit_buffer_if_needed config a s in
    let (found, buffer) = pop_unrejected s'.reject_keys s'.date_commit_buffer in
    (found, record s' { date_commit_buffer = buffer })

-- `_recent_push_events`
unfoldable pub recent_push_events :
    GitHubConfig → Answers → CommitSampler → List PushEvent × CommitSampler
recent_push_events config a s =
    let fetched : List PushEvent × CommitSampler =
      (a.push_events, record s { recent_events_cache = some (a.now, a.push_events) }) in
    elim (s.recent_events_cache) [
      | none ↦ fetched
      | some (cached_at, events) ↦
          if ltb (a.now - cached_at) config.recent_events_cache_ttl then (events, s) else fetched
    ]

-- `rng.choice(xs)`: the random number picks an index.
unfoldable pub choice : {A : Type 0} → ℕ → List A → Option A
choice n xs = get_elem? xs (n % length xs)

abbrev pub set_text : Option String → Option String
set_text none = none
set_text (some s) = if s == "" then none else some s

-- The clock is read once in an attempt.
module _ (lower : List ℕ → List ℕ) where
  -- `_event_commit_has_code_change_hint`
  unfoldable pub has_code_change_hint : List String → Bool
  unfolding is_code_file is_lockfile
  has_code_change_hint [] = false
  has_code_change_hint (f ∷ fs) =
      (is_code_file lower f && not (is_lockfile lower f)) || has_code_change_hint fs

  -- `_push_event_commits_with_code_hints`
  unfoldable pub push_event_commits_with_code_hints : PushEvent → List EventCommit
  unfolding has_code_change_hint
  push_event_commits_with_code_hints event =
      elim (keep (λ c. has_code_change_hint c.changed_files) event.commits) [
        | [] ↦ event.commits
        | c ∷ cs ↦ c ∷ cs
      ]

  -- `_pick_random_commit_sha`
  unfoldable pub pick_random_commit_sha : ℕ → PushEvent → Option String
  unfolding push_event_commits_with_code_hints choice
  pick_random_commit_sha n event = elim (choice n (push_event_commits_with_code_hints event)) [
    | none ↦ set_text event.head
    | some commit ↦ set_text commit.sha
  ]

  -- `_next_from_firehose`
  unfoldable pub next_from_firehose :
      GitHubConfig → Answers → CommitSampler → Option CommitRef × CommitSampler
  unfolding recent_push_events pick_random_commit_sha choice
  next_from_firehose config a s =
      let (events, s') = recent_push_events config a s in
      let ref : Option CommitRef = elim (choice a.event_choice events) [
        | none ↦ none
        | some event ↦ elim (set_text event.repo) [
          | none ↦ none
          | some repo ↦ elim (pick_random_commit_sha a.commit_choice event) [
            | none ↦ none
            | some sha ↦ some record { repo_full_name = repo; commit_sha = sha }
          ]
        ]
      ] in
      (ref, s')

  -- `_next_commit_ref`
  unfoldable pub next_commit_ref :
      GitHubConfig → Answers → CommitSampler → Option CommitRef × CommitSampler
  unfolding next_from_search next_from_firehose
  next_commit_ref config a s =
      let (found, s') = next_from_search config a s in
      elim found [ some ref ↦ (some ref, s') | none ↦ next_from_firehose config a s' ]
