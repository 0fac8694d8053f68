-- ===== src/Github/Sampler/Rounds.antt =====
-- What a round of attempts comes to.
use ninja_validator.Base.{
  ℕ, suc, ◌+◌, ◌≤◌, ◌<◌, ◌≡◌, ◌≢◌, subst, ◌⊎◌, inl, inr, refl, Bool, true, false, ◌||◌, none, some,
  List, [], ◌∷◌, ltb, length, keep, string_key, arith, if◌then◌else◌,
}
use ninja_validator.Github.Commits.{
  CommitCandidate, GitHubConfig, RejectReason, Screened, accepted, has_patch, is_code_change,
  is_modified, code_changed, quality_check, screen_candidate, from_api,
}
use ninja_validator.Github.Refs.{CommitRef, CommitSampler, Answers, next_commit_ref}
use ninja_validator.Github.Sampler.{
  fetch_and_screen, run_attempt, AttemptResult, no_source, turned_down, sampled, Rejections,
  no_rejections, count_rejection, Sample, sampled_commit, no_commit_met_criteria,
  commit_source_unavailable, sample_from, sample_commit,
}

abbrev pub total : Rejections → ℕ
total r = r.duplicates + r.structurals + r.qualities + r.fetch_errors

module _ (lower : List ℕ → List ℕ) (config : GitHubConfig) where
  -- A commit that can become a task.
  pub record IsUsable (c : CommitCandidate) : Type 0 where
    pub has_text : has_patch c.files ≡ true
    pub enough_files : config.min_code_files ≤ length (keep (is_code_change lower) c.files)
    pub enough_lines :
        config.min_code_changed_lines ≤ code_changed (keep (is_code_change lower) c.files)
    pub some_modified : keep is_modified (keep (is_code_change lower) c.files) ≢ []

  -- What the result of n attempts tells.
  abbrev pub Tells : ℕ → Sample → Type 0
  Tells n (sampled_commit c r) = IsUsable c × (total r < n)
  Tells n (no_commit_met_criteria r) = (total r ≡ n) × (r.fetch_errors ≡ 0)
  Tells n (commit_source_unavailable r) = (total r ≤ n) × ((total r < n) ⊎ (0 < r.fetch_errors))

  screen_candidate-IsUsable :
      (c d : CommitCandidate) → screen_candidate lower config c ≡ accepted d → IsUsable d
  unfolding screen_candidate quality_check
  screen_candidate-IsUsable c d e =
      let same : c ≡ d = ground arith in
      let passes : quality_check lower config c ≡ true = ground arith in
      subst IsUsable same (record {
        has_text = ground arith;
        enough_files = ground arith;
        enough_lines = ground arith;
        some_modified = λ none_modified. ground arith;
      })

  fetch_and_screen-IsUsable :
      (a : Answers) (ref : CommitRef) (c : CommitCandidate)
      → fetch_and_screen lower config a ref ≡ accepted c
      → IsUsable c
  unfolding fetch_and_screen
  fetch_and_screen-IsUsable a ref c e =
      elim (a.commit ref.repo_full_name ref.commit_sha)
          as (λ o. a.commit ref.repo_full_name ref.commit_sha ≡ o → IsUsable c) [
            | none ↦ λ f. absurd (ground arith)
            | some payload ↦ λ f.
                elim (from_api ref.repo_full_name payload)
                    as (λ o. from_api ref.repo_full_name payload ≡ o → IsUsable c) [
                      | Screened.rejected reason ↦ λ g. absurd (ground arith)
                      | Screened.accepted d ↦ λ g. screen_candidate-IsUsable d c (ground arith)
                    ]
                  refl
          ]
        refl

  run_attempt-IsUsable :
      (a : Answers) (s s' : CommitSampler) (c : CommitCandidate)
      → run_attempt lower config a s ≡ (sampled c, s')
      → IsUsable c
  unfolding run_attempt
  run_attempt-IsUsable a s s' c e =
      elim (next_commit_ref lower config a s).0
          as (λ o. (next_commit_ref lower config a s).0 ≡ o → IsUsable c) [
            | none ↦ λ f. absurd (ground arith)
            | some ref ↦ λ f.
                elim (fetch_and_screen lower config a ref)
                    as (λ o. fetch_and_screen lower config a ref ≡ o → IsUsable c) [
                      | Screened.rejected reason ↦ λ g. absurd (ground arith)
                      | Screened.accepted d ↦ λ g.
                          let same : d ≡ c = ground arith in
                          subst IsUsable same (fetch_and_screen-IsUsable a ref d g)
                    ]
                  refl
          ]
        refl

  -- The attempts so far, by whether one of them had no source.
  abbrev Counted : Bool → Rejections → ℕ → Type 0
  Counted true r done = total r < done
  Counted false r done = total r ≡ done

  Counted-rejection :
      (saw : Bool) (reason : RejectReason) (r : Rejections) (done : ℕ)
      → Counted saw r done
      → Counted saw (count_rejection reason r) (done + 1)
  unfolding count_rejection
  Counted-rejection true RejectReason.duplicate r done h = omega arith
  Counted-rejection true RejectReason.structural r done h = omega arith
  Counted-rejection true RejectReason.quality r done h = omega arith
  Counted-rejection true RejectReason.fetch_error r done h = omega arith
  Counted-rejection false RejectReason.duplicate r done h = omega arith
  Counted-rejection false RejectReason.structural r done h = omega arith
  Counted-rejection false RejectReason.quality r done h = omega arith
  Counted-rejection false RejectReason.fetch_error r done h = omega arith

  Counted-no_source :
      (saw : Bool) (r : Rejections) (done : ℕ) → Counted saw r done → Counted true r (done + 1)
  Counted-no_source true r done h = omega arith
  Counted-no_source false r done h = omega arith

  out_of_attempts :
      (saw : Bool) (r : Rejections) (done n : ℕ)
      → Counted saw r done
      → done ≡ n
      → Tells n (
          if saw || ltb 0 r.fetch_errors
          then commit_source_unavailable r
          else no_commit_met_criteria r)
  out_of_attempts true r done n h e = (omega arith, inl (omega arith))
  out_of_attempts false r done n h e =
      elim (ltb 0 r.fetch_errors)
          as (λ b.
            ltb 0 r.fetch_errors ≡ b
            → Tells n (if b then commit_source_unavailable r else no_commit_met_criteria r)) [
              | true ↦ λ t. (omega arith, inr (ground arith))
              | false ↦ λ t. (omega arith, ground arith)
            ]
        refl

  after_attempt :
      (rest : List Answers) (saw : Bool) (r : Rejections) (done n : ℕ) (result : AttemptResult)
      (s' : CommitSampler)
      → Counted saw r done
      → done + suc (length rest) ≡ n
      → ((c : CommitCandidate) → result ≡ sampled c → IsUsable c)
      → ((saw : Bool) (r : Rejections) (s : CommitSampler)
          → Counted saw r (done + 1)
          → Tells n (sample_from lower config rest saw r s).0)
      → Tells n
          (elim result as (λ _. Sample × CommitSampler) [
            | no_source ↦ sample_from lower config rest true r s'
            | turned_down reason ↦ sample_from lower config rest saw (count_rejection reason r) s'
            | sampled candidate ↦ (sampled_commit candidate r, s')
          ]).0
  after_attempt rest saw r done n no_source s' h e u ih =
      ih true r s' (Counted-no_source saw r done h)
  after_attempt rest saw r done n (turned_down reason) s' h e u ih =
      ih saw (count_rejection reason r) s' (Counted-rejection saw reason r done h)
  after_attempt rest true r done n (sampled c) s' h e u ih = (u c refl, omega arith)
  after_attempt rest false r done n (sampled c) s' h e u ih = (u c refl, omega arith)

  sample_from-Tells :
      (answers : List Answers) (saw : Bool) (r : Rejections) (done n : ℕ) (s : CommitSampler)
      → Counted saw r done
      → done + length answers ≡ n
      → Tells n (sample_from lower config answers saw r s).0
  unfolding sample_from
  sample_from-Tells [] saw r done n s h e = out_of_attempts saw r done n h (omega arith)
  sample_from-Tells (a ∷ rest) saw r done n s h e =
      let (result, s') = run_attempt lower config a s in
      after_attempt rest saw r done n result s' h e
        (λ c f. run_attempt-IsUsable a s s' c (λ i. (f i, s')))
        (λ saw' r' s'' h'. sample_from-Tells rest saw' r' (done + 1) n s'' h' (omega arith))

  -- Of a round of attempts, whatever GitHub answers. A sampled commit has a patch, as many code files with one and as
  -- many changed lines in them as are called for, and a modified file among them, after fewer rejections than attempts.
  -- The round fails as NoCommitMetCriteria when every attempt was a rejection and none a failed fetch, and as
  -- CommitSourceUnavailable when some attempt was no rejection or some rejection a failed fetch.
  pub sample_commit-Tells :
      (answers : List Answers) (s : CommitSampler)
      → Tells (length answers) (sample_commit lower config answers s).0
  unfolding sample_commit
  sample_commit-Tells answers s =
      sample_from-Tells answers false no_rejections 0 (length answers) s refl (omega arith)
