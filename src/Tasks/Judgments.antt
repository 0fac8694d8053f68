-- ===== src/Tasks/Judgments.antt =====
-- tau/db/judge.py: the pairs of solutions that wait for a judgment, and its write.
pub mod Once
use ninja_validator.Base.{
  String, Bool, true, false, not, ◌&&◌, ◌||◌, Option, none, some, List, [], ◌∷◌, ◌++◌, map, ◌==◌,
  string_key, keep, sort_by, if◌then◌else◌,
}
use ninja_validator.Floats.{Floats}
use ninja_validator.Duel.Snapshot.{PoolType}
use ninja_validator.Arena.Tables.{Arena, Task, Challenge, DuelTaskSolution, Judgement}
use ninja_validator.Arena.Queries.{reigning_king, is_ready_task, active_pool}
use ninja_validator.Tasks.Screening.Errors.{created_before}

-- The tuple `JudgeRequest`, with the fields of its `Task` and its two `Solution`s that are filled.
pub record JudgeRequest : Type 0 where
  pub task_id : String
  pub problem_statement : String
  pub reference_patch : String
  pub king_submission_id : String
  pub king_patch : String
  pub challenger_submission_id : String
  pub challenger_patch : String

-- The join on one side's solution: its patch, with `or ""`; none where there is no row.
unfoldable pub patch_of : String → String → String → List DuelTaskSolution → Option String
patch_of task challenger side [] = none
patch_of task challenger side (s ∷ ss) =
    let rest = patch_of task challenger side ss in
    if s.task_id == task && (s.challenger_submission_id == challenger && s.submission_id == side)
    then some (elim s.solution [ none ↦ "" | some patch ↦ patch ])
    else rest

-- The row of one challenge for a task, where the pool is the one that it is in and both sides are
-- solved.
unfoldable pub solved_pair : String → List DuelTaskSolution → Task → Challenge → List JudgeRequest
unfolding patch_of
solved_pair king solutions t c = elim (active_pool c.status) [
  | none ↦ []
  | some pool ↦
      if not (c.king_id == king && is_ready_task king pool t)
      then []
      else elim (patch_of t.task_id c.challenger_submission_id king solutions) [
        | none ↦ []
        | some k ↦
            elim (patch_of t.task_id c.challenger_submission_id c.challenger_submission_id
              solutions) [
                | none ↦ []
                | some p ↦
                    record {
                      task_id = t.task_id;
                      problem_statement = t.problem_statement;
                      reference_patch = t.reference_patch;
                      king_submission_id = king;
                      king_patch = k;
                      challenger_submission_id = c.challenger_submission_id;
                      challenger_patch = p;
                    }
                    ∷ []
              ]
      ]
]

unfoldable pub pairs_of_task :
    String → List DuelTaskSolution → List Challenge → Task → List JudgeRequest
unfolding solved_pair
pairs_of_task king solutions [] t = []
pairs_of_task king solutions (c ∷ cs) t =
    solved_pair king solutions t c ++ pairs_of_task king solutions cs t

unfoldable pub pairs_of :
    String → List DuelTaskSolution → List Challenge → List Task → List JudgeRequest
unfolding pairs_of_task
pairs_of king solutions challenges [] = []
pairs_of king solutions challenges (t ∷ ts) =
    pairs_of_task king solutions challenges t ++ pairs_of king solutions challenges ts

module _ (fl : Floats) where
  abbrev pub judges : String → String → String → Judgement fl → Bool
  judges task king challenger j =
      j.task_id == task
      && (j.king_submission_id == king && j.challenger_submission_id == challenger)

  unfoldable pub has_judgement : String → String → String → List (Judgement fl) → Bool
  has_judgement task king challenger [] = false
  has_judgement task king challenger (j ∷ js) =
      judges task king challenger j || has_judgement task king challenger js

  -- `judgements.task_id is null` of the outer join.
  abbrev pub is_unjudged : List (Judgement fl) → JudgeRequest → Bool
  is_unjudged js r =
      not (has_judgement r.task_id r.king_submission_id r.challenger_submission_id js)

  -- `text_le` is the order of the database's texts.
  unfoldable pub pending_judge_requests : (String → String → Bool) → Arena fl → List JudgeRequest
  unfolding pairs_of has_judgement created_before
  pending_judge_requests text_le db = elim (reigning_king db.kings) [
    | none ↦ []
    | some king ↦
        keep (is_unjudged db.judgements)
          (pairs_of king db.solutions db.challenges (sort_by (created_before text_le) db.tasks))
  ]

  -- The row is made of the request's ids and the judgment.
  unfoldable pub save_judgment : Judgement fl → Arena fl → Arena fl
  unfolding has_judgement
  save_judgment j db =
      if has_judgement j.task_id j.king_submission_id j.challenger_submission_id db.judgements
      then db
      else record db { judgements = db.judgements ++ j ∷ [] }
