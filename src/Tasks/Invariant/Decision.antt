-- ===== src/Tasks/Invariant/Decision.antt =====
-- A final screening decision keeps the tables stocked.
use ninja_validator.Base.{
  ◌≡◌, String, Bool, true, false, Option, some, arith, count_if, Option-cases, inl, inr, subst, sym,
  ap, ◌∙◌, ◌<◌, ◌+◌, leb, eqb, if◌then◌else◌, Bool-cases,
}
use ninja_validator.Floats.{Floats}
use ninja_validator.Duel.Snapshot.{PoolType}
use ninja_validator.Arena.Tables.{Arena, Task, TaskStatus, TaskScreening}
use ninja_validator.Arena.Queries.{PoolTargets, target, is_ready_task}
use ninja_validator.Tasks.Rows.{
  task_of, screening_of, is_pending_screen, count-set_task_status, task_id-task_of,
}
use ninja_validator.Tasks.Screening.{
  tables_after, disqualify_surplus, lock_pending_task, save_decision, decide_screening,
  decided_tables, decided_row, score_accepted, FinalScreeningOutcome, qualified, disqualified,
}
use ninja_validator.Tasks.Invariant.{IsStocked}
use ninja_validator.Tasks.Invariant.Updates.{task_of-set, screened-save}
use ninja_validator.Tasks.Invariant.Keeps.{surplus-IsStocked, lock-task}
use ninja_validator.Tasks.Invariant.Counts.{count-set}

module _ (fl : Floats) (targets : PoolTargets) where
  open fl use {Float}

  disqualified-IsStocked :
      (id : String) (row : TaskScreening fl) (t : Task) (db : Arena fl)
      → task_of id db.tasks ≡ some t
      → is_pending_screen t.status_id ≡ true
      → IsStocked fl targets db
      → IsStocked fl targets (decided_tables fl id TaskStatus.disqualified row db)
  unfolding decided_tables
  disqualified-IsStocked id row t db h p v = record {
    admitted = λ k pool.
        ground (arith, v.admitted k pool, count-set k pool id TaskStatus.disqualified db.tasks);
    paired = λ i. ground (
      arith,
      h,
      p,
      v.paired i,
      task_of-set i id TaskStatus.disqualified db.tasks,
      screened-save fl i row db.screenings,
    );
  }

  qualified-IsStocked :
      (id : String) (row : TaskScreening fl) (t : Task) (db : Arena fl)
      → task_of id db.tasks ≡ some t
      → is_pending_screen t.status_id ≡ true
      → count_if (is_ready_task t.king_id t.pool_type) db.tasks < target targets t.pool_type
      → IsStocked fl targets db
      → IsStocked fl targets (decided_tables fl id TaskStatus.qualified row db)
  unfolding decided_tables
  qualified-IsStocked id row t db h p room v = record {
    admitted = λ k pool.
        ground (arith, room, p, v.admitted k pool, count-set_task_status k pool id t db.tasks h);
    paired = λ i. ground (
      arith,
      h,
      p,
      v.paired i,
      task_of-set i id TaskStatus.qualified db.tasks,
      screened-save fl i row db.screenings,
    );
  }

  surplus_if-IsStocked :
      (drop : Bool) (king : String) (pool : PoolType) (db : Arena fl)
      → IsStocked fl targets db
      → IsStocked fl targets (if drop then (disqualify_surplus fl king pool db).0 else db)
  surplus_if-IsStocked true king pool db v = surplus-IsStocked fl targets king pool db v
  surplus_if-IsStocked false king pool db v = v

  decide_screening-IsStocked :
      (t : Task) (s : TaskScreening fl) (outcome : FinalScreeningOutcome)
      (king_score : Option Float) (max_score : Float) (reason : String) (db : Arena fl)
      → task_of t.task_id db.tasks ≡ some t
      → is_pending_screen t.status_id ≡ true
      → IsStocked fl targets db
      → IsStocked fl targets
          (tables_after db (decide_screening fl t s outcome king_score max_score reason targets db))
  unfolding decide_screening
  decide_screening-IsStocked t s disqualified king_score max_score reason db h p v =
      disqualified-IsStocked t.task_id (decided_row fl king_score max_score reason s) t db h p v
  decide_screening-IsStocked t s qualified king_score max_score reason db h p v =
      let count = count_if (is_ready_task t.king_id t.pool_type) db.tasks in
      let most = target targets t.pool_type in
      let result =
        tables_after db
          (decide_screening fl t s qualified king_score max_score reason targets db) in
      elim (Bool-cases (leb most count)) [
        | inl full ↦
            let db' =
              decided_tables fl t.task_id TaskStatus.disqualified
                (decided_row fl king_score max_score "pool_full_surplus" s) db in
            let same : result ≡ (disqualify_surplus fl t.king_id t.pool_type db').0 =
              ground arith in
            subst (IsStocked fl targets) (sym same) (
              surplus-IsStocked fl targets t.king_id t.pool_type db'
                (disqualified-IsStocked t.task_id _ t db h p v))
        | inr room ↦
            let db' =
              decided_tables fl t.task_id TaskStatus.qualified
                (decided_row fl king_score max_score reason s) db in
            let same : result ≡ (
                if eqb (count + 1) most
                then (disqualify_surplus fl t.king_id t.pool_type db').0
                else db') =
              ground arith in
            subst (IsStocked fl targets) (sym same) (
              surplus_if-IsStocked _ t.king_id t.pool_type db'
                (qualified-IsStocked t.task_id _ t db h p (ground arith) v))
      ]

  pub decision-IsStocked :
      (id king : String) (outcome : FinalScreeningOutcome) (king_score : Option Float)
      (max_score : Float) (reason : String) (db : Arena fl)
      → IsStocked fl targets db
      → IsStocked fl targets (
          tables_after db (save_decision fl id king outcome king_score max_score reason targets db))
  unfolding save_decision
  decision-IsStocked id king outcome king_score max_score reason db v =
      let result = save_decision fl id king outcome king_score max_score reason targets db in
      let kept : tables_after db result ≡ db → IsStocked fl targets (tables_after db result) =
        λ same. subst (IsStocked fl targets) (sym same) v in
      elim (Bool-cases (score_accepted fl king_score)) [
        | inr bad ↦ kept (ground arith)
        | inl good ↦ elim (Option-cases (lock_pending_task fl id king db)) [
          | inl e ↦ kept (ground arith)
          | inr (t, e) ↦ elim (Option-cases (screening_of fl id db.screenings)) [
            | inl n ↦ kept (ground arith)
            | inr (s, n) ↦ elim (Bool-cases (score_accepted fl (some max_score))) [
              | inr bad ↦ kept (ground arith)
              | inl fine ↦
                  let (h, p, k) = lock-task fl targets id king db t e in
                  let same : result
                      ≡ decide_screening fl t s outcome king_score max_score reason targets db =
                    ground arith in
                  let h' : task_of t.task_id db.tasks ≡ some t =
                    ap (λ i. task_of i db.tasks) (task_id-task_of id t db.tasks h) ∙ h in
                  subst (λ r. IsStocked fl targets (tables_after db r)) (sym same)
                    (decide_screening-IsStocked t s outcome king_score max_score reason db h' p v)
            ]
          ]
        ]
      ]
