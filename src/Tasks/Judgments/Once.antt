-- ===== src/Tasks/Judgments/Once.antt =====
-- A verdict is written once, and its pair is then no longer asked for.
use ninja_validator.Base.{
  ◌≡◌, refl, String, Bool, true, not, ◌||◌, List, [], ◌∷◌, ◌++◌, arith, keep, string_key, inl, inr,
  Option-cases, sort_by,
}
use ninja_validator.Floats.{Floats}
use ninja_validator.Arena.Tables.{Arena, Judgement}
use ninja_validator.Arena.Queries.{reigning_king}
use ninja_validator.Tasks.Screening.Errors.{created_before}
use ninja_validator.Tasks.Judgments.{
  JudgeRequest, pairs_of, judges, has_judgement, is_unjudged, pending_judge_requests, save_judgment,
}

module _ (fl : Floats) where
  -- The request is not the one that the row answers.
  abbrev pub is_other : Judgement fl → JudgeRequest → Bool
  is_other j r = not (judges fl r.task_id r.king_submission_id r.challenger_submission_id j)

  has_judgement-append :
      (task king challenger : String) (j : Judgement fl) (js : List (Judgement fl))
      → has_judgement fl task king challenger (js ++ j ∷ [])
        ≡ has_judgement fl task king challenger js || judges fl task king challenger j
  unfolding has_judgement
  has_judgement-append task king challenger j [] = ground arith
  has_judgement-append task king challenger j (x ∷ js) =
      ground (arith, has_judgement-append task king challenger j js)

  keep-is_unjudged :
      (j : Judgement fl) (js : List (Judgement fl)) (rs : List JudgeRequest)
      → keep (is_unjudged fl (js ++ j ∷ [])) rs ≡ keep (is_other j) (keep (is_unjudged fl js) rs)
  keep-is_unjudged j js [] = refl
  keep-is_unjudged j js (r ∷ rs) = ground (
    arith,
    keep-is_unjudged j js rs,
    has_judgement-append r.task_id r.king_submission_id r.challenger_submission_id j js,
  )

  keep-is_other :
      (j : Judgement fl) (js : List (Judgement fl)) (rs : List JudgeRequest)
      → has_judgement fl j.task_id j.king_submission_id j.challenger_submission_id js ≡ true
      → keep (is_unjudged fl js) rs ≡ keep (is_other j) (keep (is_unjudged fl js) rs)
  keep-is_other j js [] h = refl
  keep-is_other j js (r ∷ rs) h = ground (arith, keep-is_other j js rs)

  -- Saving a judgment takes just its own pair off the pending requests, and keeps the others in their
  -- order, whether or not the pair had a verdict before.
  pub pending-save_judgment :
      (text_le : String → String → Bool) (j : Judgement fl) (db : Arena fl)
      → pending_judge_requests fl text_le (save_judgment fl j db)
        ≡ keep (is_other j) (pending_judge_requests fl text_le db)
  unfolding pending_judge_requests save_judgment
  pending-save_judgment text_le j db = elim (Option-cases (reigning_king db.kings)) [
    | inl e ↦ ground arith
    | inr (king, e) ↦
        let pairs =
          pairs_of king db.solutions db.challenges (sort_by (created_before text_le) db.tasks) in
        ground
          (arith, e, keep-is_unjudged j db.judgements pairs, keep-is_other j db.judgements pairs)
  ]
