-- ===== src/Tasks/Solving/Missing.antt =====
-- The duel jobs are bounded in number, and each one of them is missing.
use ninja_validator.Base.{
  ℕ, ◌*◌, ◌≤◌, ◌<◌, ◌≡◌, inl, inr, refl, sym, String, Bool, true, false, List, [], ◌∷◌, ◌++◌, subst,
  leb, length, if◌then◌else◌, arith, Bool-cases, Option-cases, All, length-append,
}
use ninja_validator.Base.Alls.{All-append, All-take, All-sort_by, All-Mem}
use ninja_validator.Floats.{Floats}
use ninja_validator.Arena.Tables.{Arena, Task, Challenge, DuelTaskSolution}
use ninja_validator.Arena.Queries.{PoolTargets}
use ninja_validator.Tasks.Solving.Jobs.{
  DuelSolveJob, DuelRow, row_before, jobs_of_row, add_jobs, next_duel_jobs,
}
use ninja_validator.Tasks.Solving.Due.{
  IsDueRow, IsDue, all_rows-IsDueRow, jobs_of_row-IsDue, jobs_of_row-length,
}

module _ (challenges : List Challenge) (tasks : List Task) (solutions : List DuelTaskSolution) where
  -- Jobs that are due, and no more than the limit.
  abbrev pub AreDue : ℕ → List DuelSolveJob → Type 0
  AreDue limit jobs = All (IsDue challenges tasks solutions) jobs × (length jobs ≤ limit)

  add_jobs-AreDue :
      (first_byte : String → String → String → ℕ) (limit : ℕ) (rows : List DuelRow)
      (jobs : List DuelSolveJob)
      → All (IsDueRow challenges tasks solutions) rows
      → All (IsDue challenges tasks solutions) jobs
      → length jobs < limit
      → AreDue limit (add_jobs first_byte limit rows jobs)
  unfolding add_jobs
  add_jobs-AreDue first_byte limit [] jobs r d h = (d, omega arith)
  add_jobs-AreDue first_byte limit (row ∷ rows) jobs r d h =
      elim (Option-cases (jobs_of_row first_byte limit (length jobs) row)) [
        | inl e ↦
            let skip : add_jobs first_byte limit (row ∷ rows) jobs
                ≡ add_jobs first_byte limit rows jobs =
              ground arith in
            subst (AreDue limit) (sym skip) (add_jobs-AreDue first_byte limit rows jobs r.1 d h)
        | inr (new, e) ↦
            let room =
              jobs_of_row-length challenges tasks solutions first_byte limit (length jobs) row new e
                h in
            let all = All-append (IsDue challenges tasks solutions) jobs new d (
              jobs_of_row-IsDue challenges tasks solutions first_byte limit (length jobs) row new
                r.0 e) in
            let count = length-append jobs new in
            elim (Bool-cases (leb limit (length (jobs ++ new)))) [
              | inl full ↦
                  let stop : add_jobs first_byte limit (row ∷ rows) jobs ≡ jobs ++ new =
                    ground arith in
                  subst (AreDue limit) (sym stop) (all, omega arith)
              | inr more ↦
                  let go : add_jobs first_byte limit (row ∷ rows) jobs
                      ≡ add_jobs first_byte limit rows (jobs ++ new) =
                    ground arith in
                  subst (AreDue limit) (sym go)
                    (add_jobs-AreDue first_byte limit rows (jobs ++ new) r.1 all (ground arith))
            ]
      ]

  no_limit-AreDue :
      (limit : ℕ) (none_asked : Bool) (jobs : List DuelSolveJob)
      → (none_asked ≡ false → AreDue limit jobs)
      → AreDue limit (if none_asked then [] else jobs)
  no_limit-AreDue limit true jobs h = (tt, omega arith)
  no_limit-AreDue limit false jobs h = h refl

-- A call for duel jobs gives at most as many as the limit, and each one solves a qualified task for the
-- king or the challenger of an active challenge, in the pool that it is in, and has no solution yet.
pub next_duel_jobs-AreDue :
    (first_byte : String → String → String → ℕ) (limit : ℕ) (text_le : String → String → Bool)
    (fl : Floats) (full : Bool) (targets : PoolTargets) (db : Arena fl)
    → AreDue db.challenges db.tasks db.solutions limit
        (next_duel_jobs first_byte limit text_le fl full targets db)
unfolding next_duel_jobs
next_duel_jobs-AreDue first_byte limit text_le fl full targets db =
    no_limit-AreDue db.challenges db.tasks db.solutions limit (leb limit 0) _ λ e.
      add_jobs-AreDue db.challenges db.tasks db.solutions first_byte limit _ []
        (All-take _ (limit * 2) _ (
          All-sort_by _ (row_before text_le) _ (
            all_rows-IsDueRow db.challenges db.tasks db.solutions full targets db.challenges
              (All-Mem db.challenges))))
        tt (ground arith)
