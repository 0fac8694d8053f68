-- ===== src/Arena/Tables.antt =====
-- tau/db/models.py and tau/db/status.py: the rows that the workers read and write. A table is the list
-- of its rows; telemetry columns that no worker reads are left out. `king_from`, `block` and the
-- instants are counted as naturals.
use ninja_validator.Base.{ℕ, String, Bool, Option, List}
use ninja_validator.Floats.{Floats}
use ninja_validator.Duel.Snapshot.{PoolType, DuelScoringMethod}

pub data TaskStatus : Type 0 where
  candidate qualified disqualified pending_screen : TaskStatus

pub data ChallengeStatus : Type 0 where
  closed pool_one pool_two : ChallengeStatus

pub data DuelOutcome : Type 0 where
  king_won challenger_won challenger_deregistered : DuelOutcome

pub data SubmissionStatus : Type 0 where
  unverified eligible disqualified needs_review : SubmissionStatus

-- The integers of the columns.
abbrev pub status_int : ChallengeStatus → ℕ
status_int ChallengeStatus.closed = 0
status_int ChallengeStatus.pool_one = 1
status_int ChallengeStatus.pool_two = 2

pub record King : Type 0 where
  pub king_id : String
  pub king_from : ℕ

pub record Challenge : Type 0 where
  pub challenger_submission_id : String
  pub king_id : String
  pub status : ChallengeStatus

pub record Submission : Type 0 where
  pub submission_id : String
  pub hotkey : String
  pub block : ℕ
  pub status_id : Option SubmissionStatus

-- The outcome of a qualification, less its scores and texts.
pub record SubmissionQualification : Type 0 where
  pub submission_id : String
  pub outcome : String
  pub base_files_available : Bool
  pub error : Option String

pub record Registration : Type 0 where
  pub uid : ℕ
  pub ss58_hot : String
  pub ss58_cold : String
  pub block : ℕ
  pub block_date : ℕ

-- The telemetry columns of the generation, which nothing reads, are left out.
pub record Task : Type 0 where
  pub task_id : String
  pub king_id : String
  pub pool_type : PoolType
  pub status_id : TaskStatus
  pub problem_statement : String
  pub reference_patch : String
  pub repo_clone_url : String
  pub parent_sha : String
  pub commit_sha : String
  pub content_fingerprint : String
  pub created_at : ℕ

pub record TaskGenerationFailure : Type 0 where
  pub king_id : String
  pub pool_type : PoolType
  pub repo_full_name : String
  pub commit_sha : String
  pub attempts : ℕ
  pub reason : Option String

pub record TaskSolution : Type 0 where
  pub task_id : String
  pub submission_id : String
  pub solution : Option String
  pub exit_reason : Option String

-- A value of the JSON column, and what `.get("total_tokens")` gives of an object.
pub data Scalar : Type 0 where
  null : Scalar
  boolean : Bool → Scalar
  int : ℕ → Scalar
  negative : ℕ → Scalar  -- -(n + 1)
  other : Scalar  -- a float, a text, a list or an object

pub data Usage : Type 0 where
  scalar : Scalar → Usage
  mapping : Scalar → Usage  -- an object, by its "total_tokens"

pub record DuelTaskSolution : Type 0 where
  pub task_id : String
  pub challenger_submission_id : String
  pub submission_id : String
  pub solution : Option String
  pub exit_reason : Option String
  pub total_tokens : Usage  -- `usage_summary["total_tokens"]`

module _ (fl : Floats) where
  open fl use {Float}

  pub record Judgement : Type 0 where
    pub task_id : String
    pub king_submission_id : String
    pub challenger_submission_id : String
    pub llm_winner : Option String
    pub king_score : Option Float
    pub challenger_score : Option Float
    pub error : Option String

  pub record TaskScreening : Type 0 where
    pub task_id : String
    pub king_submission_id : String
    pub qualification_solution : String
    pub king_score : Option Float
    pub max_score : Option Float
    pub reason : Option String
    pub failed_runs : ℕ
    pub next_retry_at : Option ℕ

  pub record DuelResolution : Type 0 where
    pub challenger_submission_id : String
    pub pool_type : PoolType
    pub outcome : DuelOutcome
    pub challenger_wins : ℕ
    pub challenger_losses : ℕ
    pub ties : ℕ
    pub best_of : ℕ
    pub scoring_method : DuelScoringMethod
    pub round_win_margin : ℕ
    pub mean_score_margin : Float
    pub king_score_mean : Float
    pub challenger_score_mean : Float
    pub score_mean_delta : Float
    pub score_mean_rounds : ℕ
    pub token_bonus_enabled : Bool
    pub token_score_tolerance : Float
    pub token_min_score : Float
    pub token_bonus_multiplier : Float
    pub king_total_tokens : Option ℕ
    pub challenger_total_tokens : Option ℕ
    pub token_comparison_rounds : ℕ
    pub king_token_savings_mean : Float
    pub challenger_token_savings_mean : Float
    pub king_token_boost : Float
    pub challenger_token_boost : Float
    pub king_combined_score : Float
    pub challenger_combined_score : Float
    pub combined_score_delta : Float

  pub record Arena : Type 0 where
    pub kings : List King
    pub challenges : List Challenge
    pub resolutions : List DuelResolution
    pub submissions : List Submission
    pub registrations : List Registration
    pub tasks : List Task
    pub judgements : List Judgement
    pub solutions : List DuelTaskSolution
    pub screenings : List TaskScreening
    pub task_solutions : List TaskSolution
    pub generation_failures : List TaskGenerationFailure
    pub qualifications : List SubmissionQualification
