-- ===== src/Arena/Snapshot.antt =====
-- tau/db/duel_resolver.py: `snapshot` and `_active_challenge`. `none` is a raised exception.
use ninja_validator.Base.{String, true, false, if◌then◌else◌, Option, none, some}
use ninja_validator.Floats.{Floats}
use ninja_validator.Duel.Snapshot.{PoolType, ActiveChallenge, ChallengeSnapshot}
use ninja_validator.Duel.Tokens.{TokenEfficiencyConfig}
use ninja_validator.Arena.Tables.{Arena}
use ninja_validator.Arena.Queries.{
  PoolTargets, target, reigning_king, active_row, current_metagraph, challenger_registered,
  next_challenger, task_pools_ready,
}
use ninja_validator.Arena.Tallies.{tally}

module _ (fl : Floats) (db : Arena fl) (targets : PoolTargets)
    (config : TokenEfficiencyConfig fl) where
  -- The rest of `_active_challenge`, after its row was found.
  unfoldable pub load_active : String → String → PoolType → Option (ActiveChallenge fl)
  load_active king challenger pool =
      elim (tally fl db king challenger pool (target targets pool) config) [
        | none ↦ none
        | some t ↦ some (record {
          challenger_submission_id = challenger;
          king_submission_id = king;
          pool = pool;
          pool_target = target targets pool;
          tally = t;
          challenger_registered =
              challenger_registered (current_metagraph db.registrations) db.submissions challenger;
        })
      ]

  -- A king reigns and no challenge is active.
  unfoldable pub idle_snapshot : String → ChallengeSnapshot fl
  idle_snapshot king =
      let ready = task_pools_ready king targets db.tasks in
      record {
        reigning_king_submission_id = some king;
        active_challenge = none;
        next_challenger_submission_id =
            if ready
            then next_challenger (current_metagraph db.registrations) db.kings db.challenges
                db.submissions
            else none;
        task_pools_ready = ready;
      }

  unfoldable pub snapshot : Option (ChallengeSnapshot fl)
  unfolding load_active idle_snapshot
  snapshot = elim (reigning_king db.kings) [
    | none ↦ some (record {
      reigning_king_submission_id = none;
      active_challenge = none;
      next_challenger_submission_id = none;
      task_pools_ready = false;
    })
    | some king ↦ elim (active_row king db.challenges) [
      | none ↦ some (idle_snapshot king)
      | some (challenger, pool) ↦ elim (load_active king challenger pool) [
        | none ↦ none
        | some active ↦ some (record {
          reigning_king_submission_id = some king;
          active_challenge = some active;
          next_challenger_submission_id = none;
          task_pools_ready = true;
        })
      ]
    ]
  ]
