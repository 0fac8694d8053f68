-- ===== src/Tasks/Invariant/Keeps.antt =====
-- Every write of the workers keeps the tables stocked.
use ninja_validator.Base.{
  ℕ, ◌≡◌, String, Bool, true, false, some, arith, Option-cases, inl, inr, subst, sym, ap, ◌∙◌,
  Bool-cases,
}
use ninja_validator.Floats.{Floats}
use ninja_validator.Duel.Snapshot.{PoolType}
use ninja_validator.Arena.Tables.{Arena, Task, TaskStatus, TaskScreening}
use ninja_validator.Arena.Queries.{PoolTargets}
use ninja_validator.Tasks.Rows.{task_of, screening_of, is_pending_screen, screening_id-screening_of}
use ninja_validator.Tasks.Generation.{TaskCandidate, candidate_row, insert_task_candidate}
use ninja_validator.Tasks.Screening.{tables_after, disqualify_surplus, lock_pending_task}
use ninja_validator.Tasks.Screening.Errors.{
  retry_is_due, save_error, count_failure, retry_row, exhausted_row,
}
use ninja_validator.Tasks.Solving.{finish_qualification, advance_candidate, screening_row}
use ninja_validator.Tasks.Invariant.{IsStocked}
use ninja_validator.Tasks.Invariant.Updates.{
  task_of-set, task_of-disqualify, task_of-append, screened-save, screened-append, screened-drop,
}
use ninja_validator.Tasks.Invariant.Counts.{count-append, count-set, count-disqualify}

module _ (fl : Floats) (targets : PoolTargets) where
  pub insert-IsStocked :
      (now : ℕ) (c : TaskCandidate) (db db' : Arena fl) (r : Bool)
      → insert_task_candidate fl now c db ≡ some (db', r)
      → IsStocked fl targets db
      → IsStocked fl targets db'
  unfolding insert_task_candidate
  insert-IsStocked now c db db' r e v = record {
    admitted = λ king pool.
        ground (arith, v.admitted king pool, count-append king pool (candidate_row now c) db.tasks);
    paired = λ id. ground (arith, v.paired id, task_of-append id (candidate_row now c) db.tasks);
  }

  pub finish-IsStocked :
      (id king : String) (qualified : Bool) (solution : String) (db : Arena fl)
      → IsStocked fl targets db
      → IsStocked fl targets
          (tables_after db (finish_qualification fl id king qualified solution db))
  unfolding finish_qualification advance_candidate
  finish-IsStocked id king true solution db v = record {
    admitted = λ k pool.
        ground (arith, v.admitted k pool, count-set k pool id TaskStatus.pending_screen db.tasks);
    paired = λ i. ground (
      arith,
      v.paired i,
      task_of-set i id TaskStatus.pending_screen db.tasks,
      screened-append fl i (screening_row fl id king solution) db.screenings,
    );
  }
  finish-IsStocked id king false solution db v = record {
    admitted = λ k pool.
        ground (arith, v.admitted k pool, count-set k pool id TaskStatus.disqualified db.tasks);
    paired = λ i. ground (arith, v.paired i, task_of-set i id TaskStatus.disqualified db.tasks);
  }

  failure-IsStocked :
      (now : ℕ) (s : TaskScreening fl) (t : Task) (runs base most : ℕ) (db : Arena fl)
      → task_of s.task_id db.tasks ≡ some t
      → is_pending_screen t.status_id ≡ true
      → IsStocked fl targets db
      → IsStocked fl targets (tables_after db (count_failure fl now s runs base most db))
  unfolding count_failure
  failure-IsStocked now s t runs base most db h p v = record {
    admitted = λ k pool.
        ground
          (arith, v.admitted k pool, count-set k pool s.task_id TaskStatus.disqualified db.tasks);
    paired = λ i. ground (
      arith,
      h,
      p,
      v.paired i,
      task_of-set i s.task_id TaskStatus.disqualified db.tasks,
      screened-save fl i (retry_row fl now base most s) db.screenings,
      screened-save fl i (exhausted_row fl s) db.screenings,
    );
  }

  -- What a locked row is.
  pub lock-task :
      (id king : String) (db : Arena fl) (t : Task)
      → lock_pending_task fl id king db ≡ some t
      → (task_of id db.tasks ≡ some t) × (is_pending_screen t.status_id ≡ true) × (t.king_id ≡ king)
  unfolding lock_pending_task
  lock-task id king db t e = (ground arith, ground arith, ground arith)

  pub error-IsStocked :
      (now : ℕ) (id king : String) (runs base most : ℕ) (db : Arena fl)
      → IsStocked fl targets db
      → IsStocked fl targets (tables_after db (save_error fl now id king runs base most db))
  unfolding save_error
  error-IsStocked now id king runs base most db v =
      let result = save_error fl now id king runs base most db in
      let kept : tables_after db result ≡ db → IsStocked fl targets (tables_after db result) =
        λ same. subst (IsStocked fl targets) (sym same) v in
      elim (Option-cases (lock_pending_task fl id king db)) [
        | inl e ↦ kept (ground arith)
        | inr (t, e) ↦ elim (Option-cases (screening_of fl id db.screenings)) [
          | inl n ↦ kept (ground arith)
          | inr (s, n) ↦ elim (Bool-cases (retry_is_due now s.next_retry_at)) [
            | inr d ↦ kept (ground arith)
            | inl d ↦
                let (h, p, k) = lock-task id king db t e in
                let same : result ≡ count_failure fl now s runs base most db = ground arith in
                let h' : task_of s.task_id db.tasks ≡ some t =
                  ap (λ i. task_of i db.tasks) (screening_id-screening_of fl id s db.screenings n)
                  ∙ h in
                subst (λ r. IsStocked fl targets (tables_after db r)) (sym same)
                  (failure-IsStocked now s t runs base most db h' p v)
          ]
        ]
      ]

  pub surplus-IsStocked :
      (king : String) (pool : PoolType) (db : Arena fl)
      → IsStocked fl targets db
      → IsStocked fl targets (disqualify_surplus fl king pool db).0
  unfolding disqualify_surplus
  surplus-IsStocked king pool db v = record {
    admitted = λ k p. ground (arith, v.admitted k p, count-disqualify k p king pool db.tasks);
    paired = λ i. ground (
      arith,
      v.paired i,
      task_of-disqualify i king pool db.tasks,
      screened-drop fl i king pool db.tasks db.screenings,
    );
  }
