-- ===== src/Tasks/Run/Stocked.antt =====
-- What every run of the workers keeps of the tasks.
use ninja_validator.Base.{ℕ, ◌≡◌, refl, sym, ap, String, Bool, Option, List, subst, arith}
use ninja_validator.Floats.{Floats}
use ninja_validator.Duel.Actions.{Action}
use ninja_validator.Arena.Tables.{Arena, Task, TaskScreening}
use ninja_validator.Arena.Queries.{PoolTargets}
use ninja_validator.Arena.Writes.{open_challenge, advance_pool, close_challenge, promote, resolve}
use ninja_validator.Resolver.Tick.{DuelResolverConfig, apply}
use ninja_validator.Resolver.Run.{System}
use ninja_validator.Tasks.Generation.{record_generation_failure}
use ninja_validator.Tasks.Solving.{save_duel_task_solution, save_task_solution}
use ninja_validator.Tasks.Judgments.{save_judgment}
use ninja_validator.Tasks.Qualification.{save_qualification, save_qualification_error}
use ninja_validator.Tasks.Invariant.{IsStocked}
use ninja_validator.Tasks.Invariant.Keeps.{insert-IsStocked, finish-IsStocked, error-IsStocked}
use ninja_validator.Tasks.Invariant.Decision.{decision-IsStocked}
use ninja_validator.Tasks.Run.{
  Write, Step, RunTo, generate, give_up, complete, screen, fail_screen, solve, cache, judge,
  qualify_submission, qualify_error, register, work, read, write, here, next,
}

module _ (fl : Floats) where
  -- The tables of the task workers that `IsStocked` is about.
  abbrev stock : Arena fl → List Task × List (TaskScreening fl)
  stock db = (db.tasks, db.screenings)

  stock-IsStocked :
      (targets : PoolTargets) (db db' : Arena fl)
      → stock db' ≡ stock db
      → IsStocked fl targets db
      → IsStocked fl targets db'
  stock-IsStocked targets db db' e v = record {
    admitted = rw (ap (λ x. x.0) e) v.admitted;
    paired = rw (ap (λ x. x.0) e, ap (λ x. x.1) e) v.paired;
  }

  apply-stock :
      (c : DuelResolverConfig fl) (publisher : Option (String → Bool)) (now : ℕ) (act : Action fl)
      (db : Arena fl)
      → stock (apply fl c publisher now act db).0 ≡ stock db
  unfolding apply open_challenge advance_pool close_challenge promote resolve
  apply-stock c publisher now (Action.nothing r) db = refl
  apply-stock c publisher now (Action.open_challenge king ch) db = ground arith
  apply-stock c publisher now (Action.advance_pool a) db = ground arith
  apply-stock c publisher now (Action.promote a) db = ground arith
  apply-stock c publisher now (Action.close_challenge a r) db = ground arith

  Write-IsStocked :
      (targets : PoolTargets) (db db' : Arena fl)
      → Write fl targets db db'
      → IsStocked fl targets db
      → IsStocked fl targets db'
  unfolding record_generation_failure save_duel_task_solution save_task_solution save_judgment
      save_qualification save_qualification_error
  Write-IsStocked targets db db' (generate now c r e) v =
      insert-IsStocked fl targets now c db db' r e v
  Write-IsStocked targets db db' (complete id king qualified solution e) v =
      subst (IsStocked fl targets) (sym e)
        (finish-IsStocked fl targets id king qualified solution db v)
  Write-IsStocked targets db db' (screen id king outcome king_score max_score reason e) v =
      subst (IsStocked fl targets) (sym e)
        (decision-IsStocked fl targets id king outcome king_score max_score reason db v)
  Write-IsStocked targets db db' (fail_screen now id king runs base most e) v =
      subst (IsStocked fl targets) (sym e)
        (error-IsStocked fl targets now id king runs base most db v)
  Write-IsStocked targets db db' (give_up failure e) v =
      stock-IsStocked targets db db' (ground arith) v
  Write-IsStocked targets db db' (solve task challenger side solution exit_reason usage e) v =
      stock-IsStocked targets db db' (ground arith) v
  Write-IsStocked targets db db' (cache task side solution exit_reason e) v =
      stock-IsStocked targets db db' (ground arith) v
  Write-IsStocked targets db db' (judge j e) v = stock-IsStocked targets db db' (ground arith) v
  Write-IsStocked targets db db' (qualify_submission id outcome f e) v =
      stock-IsStocked targets db db' (ground arith) v
  Write-IsStocked targets db db' (qualify_error id error f e) v =
      stock-IsStocked targets db db' (ground arith) v
  Write-IsStocked targets db db' (register ss rs e) v =
      stock-IsStocked targets db db' (ground arith) v

  Step-IsStocked :
      (c : DuelResolverConfig fl) (targets : PoolTargets) (s u : System fl)
      → Step fl c targets s u
      → IsStocked fl targets s.db
      → IsStocked fl targets u.db
  Step-IsStocked c targets s u (work db' w e) v =
      subst (λ (x : System fl). IsStocked fl targets x.db) (sym e)
        (Write-IsStocked targets s.db db' w v)
  Step-IsStocked c targets s u (read paused e) v =
      subst (λ (x : System fl). IsStocked fl targets x.db) (sym e) v
  Step-IsStocked c targets s u (write publisher now act p e) v =
      subst (λ (x : System fl). IsStocked fl targets x.db) (sym e)
        (stock-IsStocked targets s.db _ (apply-stock c publisher now act s.db) v)

  -- However the workers' transactions interleave, from tables that hold it: no king has more qualified
  -- tasks in a pool than the pool's target, each task that waits for its screen has a screening row, and
  -- no candidate has one, nor has an id without a task.
  pub RunTo-IsStocked :
      (c : DuelResolverConfig fl) (targets : PoolTargets) {s u : System fl}
      → RunTo fl c targets s u
      → IsStocked fl targets s.db
      → IsStocked fl targets u.db
  RunTo-IsStocked c targets here v = v
  RunTo-IsStocked c targets (next {t = t} {u = u} r st) v =
      Step-IsStocked c targets t u st (RunTo-IsStocked c targets r v)
