-- ===== src/Duel/Actions.antt =====
-- tau/duel/actions.py: what `decide` can answer.
use ninja_validator.Base.{String}
use ninja_validator.Floats.{Floats}
use ninja_validator.Duel.Snapshot.{ActiveChallenge}

pub data CloseReason : Type 0 where
  king_defended challenger_deregistered : CloseReason

pub data WaitReason : Type 0 where
  no_king new_challenges_paused pools_not_ready no_challenger duel_in_progress : WaitReason

-- `Nothing | OpenChallenge | AdvancePool | Promote | CloseChallenge`
pub data Action (fl : Floats) : Type 0 where
  nothing : WaitReason → Action fl
  open_challenge : (king challenger : String) → Action fl
  advance_pool : ActiveChallenge fl → Action fl
  promote : ActiveChallenge fl → Action fl
  close_challenge : ActiveChallenge fl → CloseReason → Action fl
