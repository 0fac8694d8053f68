-- ===== src/Github/Sampler/Bounds.antt =====
-- The caches of the sampler keep within their bounds.
use ninja_validator.Base.{
  ℕ, ◌*◌, ◌≤◌, ◌≡◌, refl, String, Bool, true, false, not, none, some, List, [], ◌∷◌, ◌++◌, reverse,
  length, length-take, keep, string_key, arith,
}
use ninja_validator.Github.Commits.{GitHubConfig}
use ninja_validator.Github.Refs.{
  CommitRef, CommitSampler, Answers, reject_contains, reject_add,
  refill_date_commit_buffer_if_needed, pop_unrejected, next_from_search, recent_push_events,
  next_from_firehose, next_commit_ref,
}
use ninja_validator.Github.Sampler.{
  run_attempt, AttemptResult, no_source, turned_down, sampled, Rejections, no_rejections,
  count_rejection, sample_from, sample_commit, Sample, sampled_commit,
}

pub record IsBounded (config : GitHubConfig) (s : CommitSampler) : Type 0 where
  pub buffer : length s.date_commit_buffer ≤ config.buffer_high_watermark * 2
  pub rejects : length s.reject_keys ≤ config.reject_cache_max_size

module _ (config : GitHubConfig) where
  reject_add-IsBounded :
      (ref : CommitRef) (s : CommitSampler)
      → 1 ≤ config.reject_cache_max_size
      → IsBounded config s
      → IsBounded config (reject_add config ref s)
  unfolding reject_add
  reject_add-IsBounded ref s some_room h = ground arith

  refill-IsBounded :
      (a : Answers) (s : CommitSampler)
      → IsBounded config s
      → IsBounded config (refill_date_commit_buffer_if_needed config a s)
  unfolding refill_date_commit_buffer_if_needed
  refill-IsBounded a s h =
      elim (keep (λ ref. not (reject_contains ref s)) a.search_hits)
          as (λ fresh.
            keep (λ ref. not (reject_contains ref s)) a.search_hits ≡ fresh
            → IsBounded config (refill_date_commit_buffer_if_needed config a s)) [
              | [] ↦ λ e. ground arith
              | r ∷ rs ↦ λ e. ground (
                arith,
                length-take (config.buffer_high_watermark * 2)
                    (reverse (r ∷ rs) ++ s.date_commit_buffer),
              )
            ]
        refl

  length-pop_unrejected :
      (rejects : List String) (rs : List CommitRef)
      → length (pop_unrejected rejects rs).1 ≤ length rs
  unfolding pop_unrejected
  length-pop_unrejected rejects [] = omega arith
  length-pop_unrejected rejects (r ∷ rs) = ground (arith, length-pop_unrejected rejects rs)

  next_from_search-IsBounded :
      (a : Answers) (s : CommitSampler)
      → IsBounded config s
      → IsBounded config (next_from_search config a s).1
  unfolding next_from_search
  next_from_search-IsBounded a s h =
      let s' = refill_date_commit_buffer_if_needed config a s in
      let b = refill-IsBounded a s h in
      ground (arith, b, length-pop_unrejected s'.reject_keys s'.date_commit_buffer)

  module _ (lower : List ℕ → List ℕ) where
    next_from_firehose-IsBounded :
        (a : Answers) (s : CommitSampler)
        → IsBounded config s
        → IsBounded config (next_from_firehose lower config a s).1
    unfolding next_from_firehose recent_push_events
    next_from_firehose-IsBounded a s h = ground arith

    next_commit_ref-IsBounded :
        (a : Answers) (s : CommitSampler)
        → IsBounded config s
        → IsBounded config (next_commit_ref lower config a s).1
    unfolding next_commit_ref
    next_commit_ref-IsBounded a s h =
        let b = next_from_search-IsBounded a s h in
        ground (arith, b, next_from_firehose-IsBounded a (next_from_search config a s).1 b)

    run_attempt-IsBounded :
        (a : Answers) (s : CommitSampler)
        → 1 ≤ config.reject_cache_max_size
        → IsBounded config s
        → IsBounded config (run_attempt lower config a s).1
    unfolding run_attempt
    run_attempt-IsBounded a s some_room h =
        let (found, s') = next_commit_ref lower config a s in
        let b : IsBounded config s' = next_commit_ref-IsBounded a s h in
        elim found
            as (λ o.
              next_commit_ref lower config a s ≡ (o, s')
              → IsBounded config (run_attempt lower config a s).1) [
                | none ↦ λ e. ground (arith, b)
                | some ref ↦ λ e.
                    let added : IsBounded config (reject_add config ref s') =
                      reject_add-IsBounded ref s' some_room b in
                    ground (arith, b, added)
              ]
          refl

    after_attempt :
        (rest : List Answers) (saw : Bool) (r : Rejections) (result : AttemptResult)
        (s' : CommitSampler)
        → IsBounded config s'
        → ((saw : Bool) (r : Rejections) (s : CommitSampler)
            → IsBounded config s
            → IsBounded config (sample_from lower config rest saw r s).1)
        → IsBounded config
            (elim result as (λ _. Sample × CommitSampler) [
              | no_source ↦ sample_from lower config rest true r s'
              | turned_down reason ↦ sample_from lower config rest saw (count_rejection reason r) s'
              | sampled candidate ↦ (sampled_commit candidate r, s')
            ]).1
    after_attempt rest saw r no_source s' b ih = ih true r s' b
    after_attempt rest saw r (turned_down reason) s' b ih = ih saw (count_rejection reason r) s' b
    after_attempt rest saw r (sampled candidate) s' b ih = b

    sample_from-IsBounded :
        (answers : List Answers) (saw : Bool) (r : Rejections) (s : CommitSampler)
        → 1 ≤ config.reject_cache_max_size
        → IsBounded config s
        → IsBounded config (sample_from lower config answers saw r s).1
    unfolding sample_from
    sample_from-IsBounded [] saw r s some_room h = h
    sample_from-IsBounded (a ∷ rest) saw r s some_room h =
        let (result, s') = run_attempt lower config a s in
        after_attempt rest saw r result s' (run_attempt-IsBounded a s some_room h)
          (λ saw' r' s'' h'. sample_from-IsBounded rest saw' r' s'' some_room h')

    -- With room for a rejection, a round of attempts keeps the search buffer within twice the high watermark and
    -- the reject cache within its greatest size.
    pub sample_commit-IsBounded :
        (answers : List Answers) (s : CommitSampler)
        → 1 ≤ config.reject_cache_max_size
        → IsBounded config s
        → IsBounded config (sample_commit lower config answers s).1
    unfolding sample_commit
    sample_commit-IsBounded answers s = sample_from-IsBounded answers false no_rejections s
