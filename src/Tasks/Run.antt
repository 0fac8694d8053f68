-- ===== src/Tasks/Run.antt =====
-- The workers together on one database: the resolver of Resolver.Run, and the workers that generate,
-- solve, screen and judge tasks. Each transaction is one step; a worker may send any write at any
-- time.
pub mod Duels
pub mod Stocked
use ninja_validator.Base.{
  ℕ, ◌≡◌, refl, sym, ap, String, Bool, true, false, Option, none, some, List, subst, arith,
}
use ninja_validator.Floats.{Floats}
use ninja_validator.Duel.Actions.{Action}
use ninja_validator.Arena.Tables.{
  Arena, Task, TaskScreening, King, Challenge, DuelResolution, Submission, Registration, Judgement,
  Usage, TaskGenerationFailure,
}
use ninja_validator.Arena.Queries.{PoolTargets}
use ninja_validator.Arena.Writes.{open_challenge, advance_pool, close_challenge, promote, resolve}
use ninja_validator.Resolver.Tick.{DuelResolverConfig, apply, next_action}
use ninja_validator.Resolver.Run
use ninja_validator.Resolver.Run.{System, SameDuels, Reach, IsSound, Reach-IsValid}
use ninja_validator.Tasks.Generation.{
  TaskCandidate, insert_task_candidate, record_generation_failure,
}
use ninja_validator.Tasks.Screening.{
  tables_after, FinalScreeningOutcome, save_decision, decide_screening, decided_tables,
  disqualify_surplus,
}
use ninja_validator.Tasks.Screening.Errors.{save_error, count_failure}
use ninja_validator.Tasks.Solving.{
  finish_qualification, advance_candidate, save_duel_task_solution, save_task_solution,
}
use ninja_validator.Tasks.Judgments.{save_judgment}
use ninja_validator.Tasks.Qualification.{
  QualificationOutcome, save_qualification, save_qualification_error,
}
use ninja_validator.Tasks.Invariant.{IsStocked}
use ninja_validator.Tasks.Invariant.Keeps.{insert-IsStocked, finish-IsStocked, error-IsStocked}
use ninja_validator.Tasks.Invariant.Decision.{decision-IsStocked}

module _ (fl : Floats) where
  open fl use {Float}

  -- A transaction of one of the workers; the last constructor is that of the chain watcher, which writes
  -- submissions and registrations.
  pub data Write (targets : PoolTargets) (db db' : Arena fl) : Type 0 where
    generate :
        (now : ℕ) (c : TaskCandidate) (r : Bool)
        → insert_task_candidate fl now c db ≡ some (db', r)
        → Write targets db db'
    give_up :
        (failure : TaskGenerationFailure)
        → db' ≡ record_generation_failure fl failure db
        → Write targets db db'
    complete :
        (id king : String) (qualified : Bool) (solution : String)
        → db' ≡ tables_after db (finish_qualification fl id king qualified solution db)
        → Write targets db db'
    screen :
        (id king : String) (outcome : FinalScreeningOutcome) (king_score : Option Float)
        (max_score : Float) (reason : String)
        → db'
          ≡ tables_after db
              (save_decision fl id king outcome king_score max_score reason targets db)
        → Write targets db db'
    fail_screen :
        (now : ℕ) (id king : String) (runs base most : ℕ)
        → db' ≡ tables_after db (save_error fl now id king runs base most db)
        → Write targets db db'
    solve :
        (task challenger side solution exit_reason : String) (usage : Usage)
        → db' ≡ save_duel_task_solution fl task challenger side solution exit_reason usage db
        → Write targets db db'
    cache :
        (task side solution exit_reason : String)
        → db' ≡ save_task_solution fl task side solution exit_reason db
        → Write targets db db'
    judge : (j : Judgement fl) → db' ≡ save_judgment fl j db → Write targets db db'
    qualify_submission :
        (id : String) (outcome : QualificationOutcome) (base_files_available : Bool)
        → db' ≡ (save_qualification fl id outcome base_files_available db).0
        → Write targets db db'
    qualify_error :
        (id error : String) (base_files_available : Bool)
        → db' ≡ (save_qualification_error fl id error base_files_available db).0
        → Write targets db db'
    register :
        (ss : List Submission) (rs : List Registration)
        → db' ≡ record db { submissions = ss; registrations = rs }
        → Write targets db db'

  -- A step of the whole: a read or a write of the resolver, or a write of another worker.
  pub data Step (c : DuelResolverConfig fl) (targets : PoolTargets) (s u : System fl) : Type 0 where
    work :
        (db' : Arena fl) → Write targets s.db db' → u ≡ record s { db = db' } → Step c targets s u
    read :
        (paused : Bool)
        → u ≡ record s { pending = next_action fl c targets paused s.db }
        → Step c targets s u
    write :
        (publisher : Option (String → Bool)) (now : ℕ) (act : Action fl)
        → s.pending ≡ some act
        → u ≡ record { db = (apply fl c publisher now act s.db).0; pending = none }
        → Step c targets s u

  pub data RunTo (c : DuelResolverConfig fl) (targets : PoolTargets) (s : System fl)
      : System fl → Type 0 where
    here : RunTo c targets s s
    next : {t u : System fl} → RunTo c targets s t → Step c targets t u → RunTo c targets s u
