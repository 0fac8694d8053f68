-- ===== src/Tests/Sampling.antt =====
-- Two attempts of the sampler: the first commit is a merge, the second is sampled.
use ninja_validator.Base.{
  ℕ, ◌≡◌, refl, String-discrete, string_key, ◌==◌, if◌then◌else◌, some, List, [], ◌∷◌, length,
  arith,
}
use native.Mathlib.Decide.{ℕ_discrete}
use ninja_validator.Github.Commits.{CommitFile, CommitPayload, GitHubConfig}
use ninja_validator.Github.Refs.{new_sampler, Answers}
use ninja_validator.Github.Sampler.{sampled_commit, sample_commit}
use ninja_validator.Github.Sampler.Bounds.{IsBounded, sample_commit-IsBounded}
use ninja_validator.Github.Sampler.Rounds.{Tells, sample_commit-Tells}

abbrev config : GitHubConfig
config = record {
  buffer_low_watermark = 1;
  buffer_high_watermark = 2;
  search_fail_cooldown = 10;
  recent_events_cache_ttl = 60;
  min_code_changed_lines = 3;
  min_code_files = 1;
  reject_cache_max_size = 5;
}

abbrev edited : CommitFile
edited = record {
  filename = "src/a.py";
  status = "modified";
  additions = 2;
  deletions = 1;
  patch = some "+ x";
}

abbrev merge : CommitPayload
merge = record { parents = some "p" ∷ some "q" ∷ []; sha = some "s1"; files = edited ∷ [] }

abbrev good : CommitPayload
good = record { parents = some "p" ∷ []; sha = some "s2"; files = edited ∷ [] }

-- The hits are popped from the end.
abbrev answers : Answers
answers = record {
  now = 5;
  search_hits =
      record { repo_full_name = "r"; commit_sha = "s2" }
      ∷ record { repo_full_name = "r"; commit_sha = "s1" }
      ∷ [];
  push_events = [];
  event_choice = 0;
  commit_choice = 0;
  commit = λ repo sha. if sha == "s1" then some merge else some good;
}

abbrev two_attempts : List Answers
two_attempts = answers ∷ answers ∷ []

abbrev same : List ℕ → List ℕ
same text = text

sampled_second :
    (sample_commit same config two_attempts new_sampler).0
    ≡ sampled_commit
        record { repo_full_name = "r"; commit_sha = "s2"; parent_sha = "p"; files = edited ∷ [] }
        record { duplicates = 0; structurals = 1; qualities = 0; fetch_errors = 0 }
unfolding sample_commit String-discrete ℕ_discrete
sampled_second = refl

sample_commit-Tells_example :
    Tells same config (length two_attempts) (sample_commit same config two_attempts new_sampler).0
sample_commit-Tells_example = sample_commit-Tells same config two_attempts new_sampler

sample_commit-IsBounded_example :
    IsBounded config (sample_commit same config two_attempts new_sampler).1
sample_commit-IsBounded_example =
    sample_commit-IsBounded config same two_attempts new_sampler (omega arith) (omega arith)
