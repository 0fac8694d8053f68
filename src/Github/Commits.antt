-- ===== src/Github/Commits.antt =====
-- tau/github/types.py, and the tests on a commit of tau/github/sampler.py. `lower` is the case mapping of
-- Unicode texts, `str.lower`, on their code points. Columns that no test reads are left out.
use ninja_validator.Base.Texts.{codes, same_codes, ends_with}
use ninja_validator.Base.{
  ℕ, ◌+◌, String, Bool, true, false, not, ◌&&◌, ◌||◌, Option, none, some, List, [], ◌∷◌, ltb, leb,
  eqb, ◌==◌, string_key, keep, length, if◌then◌else◌,
}

-- The truth of an optional text: `if value`.
abbrev pub is_set_text : Option String → Bool
is_set_text none = false
is_set_text (some s) = not (s == "")

-- `_CODE_EXTENSIONS` and `_SKIP_FILENAMES`
abbrev pub code_extensions : List String
code_extensions =
    ".py" ∷ ".js" ∷ ".ts" ∷ ".jsx" ∷ ".tsx" ∷ ".java" ∷ ".go" ∷ ".rs" ∷ ".c" ∷ ".cpp" ∷ ".h"
    ∷ ".hpp" ∷ ".cs" ∷ ".rb" ∷ ".php" ∷ ".swift" ∷ ".kt" ∷ ".scala" ∷ ".sh" ∷ ".bash" ∷ ".zsh"
    ∷ ".pl" ∷ ".pm" ∷ ".r" ∷ ".lua" ∷ ".ex" ∷ ".exs" ∷ ".erl" ∷ ".hs" ∷ ".ml" ∷ ".mli" ∷ ".clj"
    ∷ ".cljs" ∷ ".vue" ∷ ".svelte" ∷ ".dart" ∷ ".zig" ∷ ".nim" ∷ ".cr" ∷ ".v" ∷ ".sql" ∷ ".m"
    ∷ ".mm" ∷ []

abbrev pub skip_filenames : List String
skip_filenames =
    "package-lock.json" ∷ "yarn.lock" ∷ "pnpm-lock.yaml" ∷ "cargo.lock" ∷ "poetry.lock"
    ∷ "pipfile.lock" ∷ "gemfile.lock" ∷ "composer.lock" ∷ "go.sum" ∷ "flake.lock" ∷ []

unfoldable pub any_ends : List String → List ℕ → Bool
unfolding ends_with
any_ends [] text = false
any_ends (e ∷ es) text = ends_with (codes e) text || any_ends es text

-- `text.rsplit("/", 1)[-1]`, of which `base` is the part since the last slash so far.
unfoldable pub after_slash : List ℕ → List ℕ → List ℕ
after_slash base [] = base
after_slash base (c ∷ cs) = elim (eqb c b'/') [
  | true ↦ after_slash cs cs
  | false ↦ after_slash base cs
]

unfoldable pub any_same : List String → List ℕ → Bool
unfolding same_codes
any_same [] text = false
any_same (e ∷ es) text = same_codes (codes e) text || any_same es text

pub record CommitFile : Type 0 where
  pub filename : String
  pub status : String
  pub additions : ℕ
  pub deletions : ℕ
  pub patch : Option String

pub record CommitCandidate : Type 0 where
  pub repo_full_name : String
  pub commit_sha : String
  pub parent_sha : String
  pub files : List CommitFile

-- The fields of the payload that `CommitCandidate.from_api` reads: a parent is its sha.
pub record CommitPayload : Type 0 where
  pub parents : List (Option String)
  pub sha : Option String
  pub files : List CommitFile

pub data RejectReason : Type 0 where
  duplicate structural quality fetch_error : RejectReason

-- A result, or a `CommitRejected`.
pub data Screened (A : Type 0) : Type 0 where
  accepted : A → Screened A
  rejected : RejectReason → Screened A

-- `CommitCandidate.from_api`
unfoldable pub from_api : String → CommitPayload → Screened CommitCandidate
from_api repo payload = elim payload.parents [
  | [] ↦ Screened.rejected RejectReason.structural
  | parent ∷ others ↦ elim others [
    | _ ∷ _ ↦ Screened.rejected RejectReason.structural
    | [] ↦ elim (payload.sha) [
      | none ↦ Screened.rejected RejectReason.structural
      | some sha ↦ elim parent [
        | none ↦ Screened.rejected RejectReason.structural
        | some parent_sha ↦
            if sha == "" || parent_sha == ""
            then Screened.rejected RejectReason.structural
            else elim payload.files [
              | [] ↦ Screened.rejected RejectReason.structural
              | f ∷ fs ↦ Screened.accepted record {
                repo_full_name = repo;
                commit_sha = sha;
                parent_sha = parent_sha;
                files = f ∷ fs;
              }
            ]
      ]
    ]
  ]
]

-- The knobs of `GitHubConfig` that the sampler reads, times in one unit.
pub record GitHubConfig : Type 0 where
  pub buffer_low_watermark : ℕ
  pub buffer_high_watermark : ℕ
  pub search_fail_cooldown : ℕ
  pub recent_events_cache_ttl : ℕ
  pub min_code_changed_lines : ℕ
  pub min_code_files : ℕ
  pub reject_cache_max_size : ℕ

-- The checks of `__post_init__` on them.
abbrev pub github_config_accepted : GitHubConfig → Bool
github_config_accepted c =
    leb c.buffer_low_watermark c.buffer_high_watermark
    && (leb 1 c.min_code_files && leb 1 c.reject_cache_max_size)

unfoldable pub code_changed : List CommitFile → ℕ
code_changed [] = 0
code_changed (f ∷ fs) = f.additions + f.deletions + code_changed fs

-- Whether `combined_patch` has text: a file with a patch gives a block, which starts with `diff`.
unfoldable pub has_patch : List CommitFile → Bool
has_patch [] = false
has_patch (f ∷ fs) = is_set_text f.patch || has_patch fs

abbrev pub is_modified : CommitFile → Bool
is_modified f = f.status == "modified"

module _ (lower : List ℕ → List ℕ) where
  unfoldable pub is_code_file : String → Bool
  unfolding any_ends
  is_code_file filename = any_ends code_extensions (lower (codes filename))

  unfoldable pub is_lockfile : String → Bool
  unfolding any_same after_slash
  is_lockfile filename =
      any_same skip_filenames (lower (after_slash (codes filename) (codes filename)))

  -- The `code_files` of `_quality_check`.
  unfoldable pub is_code_change : CommitFile → Bool
  unfolding is_code_file is_lockfile
  is_code_change f =
      is_set_text f.patch && (is_code_file f.filename && not (is_lockfile f.filename))

  -- `_quality_check`: whether the commit is acceptable.
  unfoldable pub quality_check : GitHubConfig → CommitCandidate → Bool
  unfolding is_code_change code_changed
  quality_check config candidate =
      let code_files = keep is_code_change candidate.files in
      if ltb (length code_files) config.min_code_files
      then false
      else (if ltb (code_changed code_files) config.min_code_changed_lines
          then false
          else elim (keep is_modified code_files) [ [] ↦ false | _ ∷ _ ↦ true ])

  -- `_screen`
  unfoldable pub screen_candidate : GitHubConfig → CommitCandidate → Screened CommitCandidate
  unfolding has_patch quality_check
  screen_candidate config candidate =
      if not (has_patch candidate.files)
      then Screened.rejected RejectReason.quality
      else (if quality_check config candidate
          then Screened.accepted candidate
          else Screened.rejected RejectReason.quality)
