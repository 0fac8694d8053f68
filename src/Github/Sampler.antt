-- ===== src/Github/Sampler.antt =====
-- tau/github/sampler.py: a round of attempts.
pub mod Bounds
pub mod Rounds
use Prim.Native.String.{◌++◌ as append}
use ninja_validator.Base.{
  ℕ, zero, suc, ◌+◌, ◌-◌, ◌*◌, ◌%◌, String, Bool, true, false, not, ◌&&◌, ◌||◌, Option, none, some,
  List, [], ◌∷◌, ◌++◌, reverse, ltb, leb, ◌==◌, string_key, contains, keep, take, length, get_elem?,
  if◌then◌else◌,
}
use ninja_validator.Github.Commits.{
  CommitPayload, CommitCandidate, GitHubConfig, RejectReason, Screened, accepted, rejected,
  is_set_text, is_code_file, is_lockfile, from_api, screen_candidate,
}
use ninja_validator.Github.Refs.{
  CommitRef, reject_cache_key, EventCommit, PushEvent, CommitSampler, new_sampler, Answers,
  reject_contains, reject_add, refill_date_commit_buffer_if_needed, pop_unrejected,
  next_from_search, recent_push_events, choice, set_text, has_code_change_hint,
  push_event_commits_with_code_hints, pick_random_commit_sha, next_from_firehose, next_commit_ref,
}

-- What an attempt of `sample_commit` comes to.
pub data AttemptResult : Type 0 where
  no_source : AttemptResult
  turned_down : RejectReason → AttemptResult
  sampled : CommitCandidate → AttemptResult

-- The counter of rejections by their reasons.
pub record Rejections : Type 0 where
  pub duplicates : ℕ
  pub structurals : ℕ
  pub qualities : ℕ
  pub fetch_errors : ℕ

abbrev pub no_rejections : Rejections
no_rejections = record { duplicates = 0; structurals = 0; qualities = 0; fetch_errors = 0 }

-- `rejections[reason] += 1`
unfoldable pub count_rejection : RejectReason → Rejections → Rejections
count_rejection RejectReason.duplicate r = record r { duplicates = r.duplicates + 1 }
count_rejection RejectReason.structural r = record r { structurals = r.structurals + 1 }
count_rejection RejectReason.quality r = record r { qualities = r.qualities + 1 }
count_rejection RejectReason.fetch_error r = record r { fetch_errors = r.fetch_errors + 1 }

-- A `SampledCommit`, or the exception that `sample_commit` raises.
pub data Sample : Type 0 where
  sampled_commit : CommitCandidate → Rejections → Sample
  no_commit_met_criteria : Rejections → Sample
  commit_source_unavailable : Rejections → Sample

module _ (lower : List ℕ → List ℕ) where
  -- `_fetch_candidate` with `_screen`; a request that fails is a rejection of its own.
  unfoldable pub fetch_and_screen : GitHubConfig → Answers → CommitRef → Screened CommitCandidate
  unfolding from_api screen_candidate
  fetch_and_screen config a ref = elim (a.commit ref.repo_full_name ref.commit_sha) [
    | none ↦ Screened.rejected RejectReason.fetch_error
    | some payload ↦ elim (from_api ref.repo_full_name payload) [
      | Screened.rejected reason ↦ Screened.rejected reason
      | Screened.accepted candidate ↦ screen_candidate lower config candidate
    ]
  ]

  -- An attempt of `sample_commit`.
  unfoldable pub run_attempt :
      GitHubConfig → Answers → CommitSampler → AttemptResult × CommitSampler
  unfolding next_commit_ref fetch_and_screen reject_add
  run_attempt config a s =
      let (found, s') = next_commit_ref lower config a s in
      elim found [
        | none ↦ (no_source, s')
        | some ref ↦
            if reject_contains ref s'
            then (turned_down RejectReason.duplicate, s')
            else elim (fetch_and_screen config a ref) [
              | Screened.accepted candidate ↦ (sampled candidate, s')
              | Screened.rejected reason ↦ (turned_down reason, reject_add config ref s')
            ]
      ]

  -- The loop of `sample_commit` over the attempts that are left.
  unfoldable pub sample_from :
      GitHubConfig → List Answers → Bool → Rejections → CommitSampler → Sample × CommitSampler
  unfolding run_attempt count_rejection
  sample_from config [] saw_no_source r s = (
    if saw_no_source || ltb 0 r.fetch_errors
        then commit_source_unavailable r
        else no_commit_met_criteria r,
    s,
  )
  sample_from config (a ∷ rest) saw_no_source r s =
      let (result, s') = run_attempt config a s in
      elim result [
        | no_source ↦ sample_from config rest true r s'
        | turned_down reason ↦ sample_from config rest saw_no_source (count_rejection reason r) s'
        | sampled candidate ↦ (sampled_commit candidate r, s')
      ]

  -- `sample_commit`, an answer for each of `max_attempts`
  unfoldable pub sample_commit :
      GitHubConfig → List Answers → CommitSampler → Sample × CommitSampler
  unfolding sample_from
  sample_commit config answers s = sample_from config answers false no_rejections s
