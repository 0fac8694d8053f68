-- ===== src/Tasks/Invariant/Raises.antt =====
-- Which of the workers' transactions raise an exception.
use ninja_validator.Base.{
  ◌≡◌, ◌≢◌, ◌↔◌, ◌⊎◌, inl, inr, refl, sym, subst, String, Bool, true, false, Option, some, none,
  arith, Bool-cases, Option-cases, string_key,
}
use ninja_validator.Floats.{Floats}
use ninja_validator.Arena.Tables.{Arena, Task}
use ninja_validator.Arena.Queries.{PoolTargets, reigning_king}
use ninja_validator.Tasks.Rows.{task_of}
use ninja_validator.Tasks.Screening.{
  Outcome, FinalScreeningOutcome, score_accepted, lock_pending_task, awaits_screen, save_decision,
  decide_screening,
}
use ninja_validator.Tasks.Solving.{finish_qualification, advance_candidate}
use ninja_validator.Tasks.Invariant.{IsStocked}

module _ (fl : Floats) (targets : PoolTargets) where
  open fl use {Float, nought, unit, le}

  -- On stocked tables the solver's completion of a qualification never raises an exception.
  pub finish-returns :
      (id king : String) (qualified : Bool) (solution : String) (db : Arena fl)
      → IsStocked fl targets db
      → finish_qualification fl id king qualified solution db ≢ Outcome.failed
  unfolding finish_qualification advance_candidate
  finish-returns id king true solution db v = ground (arith, v.paired id)
  finish-returns id king false solution db v = ground (arith, v.paired id)

  -- Not from 0 to 1.
  abbrev pub IsOutside : Float → Type 0
  IsOutside x = (le nought x ≡ false) ⊎ (le x unit ≡ false)

  refused-IsOutside : (x : Float) → (score_accepted fl (some x) ≡ false) ↔ IsOutside x
  refused-IsOutside x = (
    λ e. elim (Bool-cases (le nought x)) [ inl a ↦ inr (ground arith) | inr a ↦ inl a ],
    λ h. elim h [ inl a ↦ ground arith | inr b ↦ ground arith ],
  )

  refused_score :
      (king_score : Option Float)
      → (score_accepted fl king_score ≡ false) ↔ ((x : Float) × (king_score ≡ some x) × IsOutside x)
  refused_score none = ((λ e. absurd (ground arith)), (λ (x, e, h). absurd (ground arith)))
  refused_score (some x) = (
    (λ e. (x, refl, (refused-IsOutside x).0 e)),
    (λ (y, e, h). subst (λ z. score_accepted fl z ≡ false) (sym e) ((refused-IsOutside y).1 h)),
  )

  -- The task waits for the screen of the reigning king.
  abbrev pub IsAwaited : String → String → Arena fl → Type 0
  IsAwaited id king db =
      (reigning_king db.kings ≡ some king)
      × (task : Task) × (task_of id db.tasks ≡ some task)
      × (awaits_screen king task ≡ true)

  lock-IsAwaited :
      (id king : String) (db : Arena fl) (task : Task)
      → lock_pending_task fl id king db ≡ some task
      → IsAwaited id king db
  unfolding lock_pending_task
  lock-IsAwaited id king db task e = elim (Option-cases (task_of id db.tasks)) [
    | inl n ↦ absurd (ground arith)
    | inr (t, f) ↦ (ground arith, t, f, ground arith)
  ]

  IsAwaited-fails :
      (id king : String) (outcome : FinalScreeningOutcome) (king_score : Option Float)
      (max_score : Float) (reason : String) (db : Arena fl)
      → IsStocked fl targets db
      → IsAwaited id king db
      → score_accepted fl (some max_score) ≡ false
      → save_decision fl id king outcome king_score max_score reason targets db ≡ Outcome.failed
  unfolding save_decision lock_pending_task
  IsAwaited-fails id king outcome king_score max_score reason db v (r, t, f, a) e =
      ground (arith, v.paired id)

  fails-refused :
      (id king : String) (outcome : FinalScreeningOutcome) (king_score : Option Float)
      (max_score : Float) (reason : String) (db : Arena fl)
      → IsStocked fl targets db
      → score_accepted fl king_score ≡ true
      → save_decision fl id king outcome king_score max_score reason targets db ≡ Outcome.failed
      → (task : Task) × (lock_pending_task fl id king db ≡ some task)
        × (score_accepted fl (some max_score) ≡ false)
  unfolding save_decision decide_screening lock_pending_task
  fails-refused id king outcome king_score max_score reason db v a e =
      elim (Option-cases (lock_pending_task fl id king db)) [
        | inl n ↦ absurd (ground arith)
        | inr (t, f) ↦ (t, f, ground (arith, v.paired id))
      ]

  -- On stocked tables a screening decision raises an exception just when the king's score is given and
  -- is not from 0 to 1, or the task waits for the screen of the reigning king and the greatest score is not from 0 to 1.
  pub save_decision-fails :
      (id king : String) (outcome : FinalScreeningOutcome) (king_score : Option Float)
      (max_score : Float) (reason : String) (db : Arena fl)
      → IsStocked fl targets db
      → (save_decision fl id king outcome king_score max_score reason targets db ≡ Outcome.failed)
        ↔ (((x : Float) × (king_score ≡ some x) × IsOutside x)
            ⊎ (IsAwaited id king db × IsOutside max_score))
  unfolding save_decision
  save_decision-fails id king outcome king_score max_score reason db v = (
    λ e. elim (Bool-cases (score_accepted fl king_score)) [
      | inl a ↦
          let (t, f, m) = fails-refused id king outcome king_score max_score reason db v a e in
          inr (lock-IsAwaited id king db t f, (refused-IsOutside max_score).0 m)
      | inr a ↦ inl ((refused_score king_score).0 a)
    ],
    λ h. elim h [
      | inl x ↦ let r = (refused_score king_score).1 x in ground (arith, r)
      | inr (w, m) ↦
          IsAwaited-fails id king outcome king_score max_score reason db v w
            ((refused-IsOutside max_score).1 m)
    ],
  )
