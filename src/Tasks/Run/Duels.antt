-- ===== src/Tasks/Run/Duels.antt =====
-- What a run of the workers is to the resolver.
use ninja_validator.Base.{◌≡◌, ap, true, false, List, arith}
use ninja_validator.Floats.{Floats}
use ninja_validator.Arena.Tables.{Arena, King, Challenge, DuelResolution}
use ninja_validator.Arena.Queries.{PoolTargets}
use ninja_validator.Resolver.Tick.{DuelResolverConfig}
use ninja_validator.Resolver.Run
use ninja_validator.Resolver.Run.{System, SameDuels, Reach, IsSound, Reach-IsValid}
use ninja_validator.Tasks.Generation.{insert_task_candidate, record_generation_failure}
use ninja_validator.Tasks.Screening.{
  save_decision, decide_screening, decided_tables, disqualify_surplus,
}
use ninja_validator.Tasks.Screening.Errors.{save_error, count_failure}
use ninja_validator.Tasks.Solving.{
  finish_qualification, advance_candidate, save_duel_task_solution, save_task_solution,
}
use ninja_validator.Tasks.Judgments.{save_judgment}
use ninja_validator.Tasks.Qualification.{save_qualification, save_qualification_error}
use ninja_validator.Tasks.Run.{
  Write, Step, RunTo, generate, give_up, complete, screen, fail_screen, solve, cache, judge,
  qualify_submission, qualify_error, register, work, read, write, here, next,
}

module _ (fl : Floats) where
  -- The tables of the resolver.
  abbrev duels : Arena fl → List King × (List Challenge × List (DuelResolution fl))
  duels db = (db.kings, (db.challenges, db.resolutions))

  Write-duels :
      (targets : PoolTargets) (db db' : Arena fl) → Write fl targets db db' → duels db' ≡ duels db
  unfolding insert_task_candidate record_generation_failure finish_qualification advance_candidate
      save_decision decide_screening decided_tables disqualify_surplus save_error count_failure
      save_duel_task_solution save_task_solution save_judgment save_qualification
      save_qualification_error
  Write-duels targets db db' (generate now c r e) = ground arith
  Write-duels targets db db' (give_up failure e) = ground arith
  Write-duels targets db db' (complete id king true solution e) = ground arith
  Write-duels targets db db' (complete id king false solution e) = ground arith
  Write-duels targets db db' (screen id king outcome king_score max_score reason e) = ground arith
  Write-duels targets db db' (fail_screen now id king runs base most e) = ground arith
  Write-duels targets db db' (solve task challenger side solution exit_reason usage e) =
      ground arith
  Write-duels targets db db' (cache task side solution exit_reason e) = ground arith
  Write-duels targets db db' (judge j e) = ground arith
  Write-duels targets db db' (qualify_submission id outcome f e) = ground arith
  Write-duels targets db db' (qualify_error id error f e) = ground arith
  Write-duels targets db db' (register ss rs e) = ground arith

  SameDuels-of_duels : (db db' : Arena fl) → duels db' ≡ duels db → SameDuels fl db db'
  SameDuels-of_duels db db' e = record {
    kings = ap (λ d. d.0) e;
    challenges = ap (λ d. d.1.0) e;
    resolutions = ap (λ d. d.1.1) e;
  }

  Step-Step :
      (c : DuelResolverConfig fl) (targets : PoolTargets) (s u : System fl)
      → Step fl c targets s u
      → Run.Step fl c targets s u
  Step-Step c targets s u (work db' w e) =
      Run.others db' (SameDuels-of_duels s.db db' (Write-duels targets s.db db' w)) e
  Step-Step c targets s u (read paused e) = Run.read paused e
  Step-Step c targets s u (write publisher now act p e) = Run.write publisher now act p e

  -- Every run of the workers together is a run of the resolver among writes of tables that are not its
  -- own.
  pub RunTo-Reach :
      (c : DuelResolverConfig fl) (targets : PoolTargets) {s u : System fl}
      → RunTo fl c targets s u
      → Reach fl c targets s u
  RunTo-Reach c targets here = Reach.here
  RunTo-Reach c targets (next {t = t} {u = u} r st) =
      Reach.next (RunTo-Reach c targets r) (Step-Step c targets t u st)
