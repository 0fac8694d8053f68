-- ===== src/Tests/Tables.antt =====
-- Runs of the resolver on a small arena.
use ninja_validator.Base.{
  ◌≡◌, ◌≢◌, ◌≤◌, refl, String-discrete, true, false, Option, none, some, [], arith, inr,
}
use ninja_validator.Duel.Snapshot.{pool_one, ActiveChallenge}
use ninja_validator.Duel.Actions.{Action, no_king}
use ninja_validator.Arena.Queries.{
  reigning_king, latest_king, current_metagraph, next_challenger, oldest, can_challenge, place,
  active_row, challenger_registered, on_current_registration,
}
use ninja_validator.Arena.Queries.Eligible.{IsCall, next_challenger_exact}
use ninja_validator.Arena.Snapshot.{snapshot}
use ninja_validator.Arena.Tallies.{tally}
use ninja_validator.Duel.Tokens.{calculate_token_efficiency}
use ninja_validator.Duel.Decide.{decide}
use ninja_validator.Arena.Writes.{resolve, promote, set_status, advance_pool}
use ninja_validator.Arena.Tables.{DuelResolution, DuelOutcome}
use ninja_validator.Arena.Invariant.{IsValid}
use ninja_validator.Arena.Invariant.Crowned.{promoted, promote_exact}
use ninja_validator.Resolver.Tick.{rules, apply, next_action, action}
use ninja_validator.Resolver.Run.{System, read, write, Reach, here, next, IsSound, Reach-IsValid}
use ninja_validator.Resolver.Run.Progress.{rank_in, Reach-rank}
use ninja_validator.Resolver.Run.Uninterrupted.{uninterrupted_applies}
use ninja_validator.Tests.{hundredths, tally_with, challenge_with, config, one_each, arena}

arena-IsValid : IsValid hundredths arena
unfolding reigning_king latest_king
arena-IsValid = record {
  one_active = omega arith;
  faces = (inr refl, tt);
  unique = (refl, tt);
  settled = tt;
}

abbrev challenge : ActiveChallenge hundredths
challenge = challenge_with pool_one 1 (tally_with 1 0 0)

promote_exact_example :
    (row : DuelResolution hundredths) × (row.challenger_submission_id ≡ "c")
    × (row.pool_type ≡ pool_one)
    × (row.outcome ≡ DuelOutcome.challenger_won)
    × (promote hundredths 20 challenge (rules hundredths config) arena
        ≡ (promoted hundredths challenge (rules hundredths config) arena 20 row, true))
unfolding String-discrete
promote_exact_example =
    promote_exact hundredths challenge (rules hundredths config) arena 20 arena-IsValid

next_challenger_exact_example :
    IsCall (current_metagraph arena.registrations) arena.kings [] arena.submissions (some "c")
unfolding next_challenger current_metagraph oldest can_challenge place String-discrete
next_challenger_exact_example =
    next_challenger_exact (current_metagraph arena.registrations) arena.kings [] arena.submissions

abbrev start : System hundredths
start = record { db = arena; pending = none }

start-IsSound : IsSound hundredths start
start-IsSound = record { valid = arena-IsValid; fresh = λ act e. absurd cc }

-- The tick reads, and decides.
abbrev decided : System hundredths
decided = record { db = arena; pending = next_action hundredths config one_each false arena }

abbrev answer : Option (Action hundredths) → Action hundredths
answer none = Action.nothing no_king
answer (some a) = a

abbrev act : Action hundredths
act = answer (next_action hundredths config one_each false arena)

-- It writes.
abbrev written : System hundredths
written = record { db = (apply hundredths config none 20 act arena).0; pending = none }

act_found : next_action hundredths config one_each false arena ≡ some act
unfolding next_action snapshot reigning_king latest_king active_row String-discrete tally
    calculate_token_efficiency
act_found = refl

run : Reach hundredths config one_each start written
run = next (next here (read false refl)) (write none 20 act act_found refl)

Reach-IsValid_example : IsSound hundredths written
Reach-IsValid_example = Reach-IsValid hundredths config one_each start-IsSound run

Reach-rank_example : rank_in hundredths "c" arena ≤ rank_in hundredths "c" written.db
Reach-rank_example = Reach-rank hundredths "c" config one_each run

-- The challenge has moved to pool two.
done_advanced : rank_in hundredths "c" written.db ≡ 2
unfolding next_action apply snapshot reigning_king latest_king active_row String-discrete tally
    calculate_token_efficiency decide challenger_registered on_current_registration
    current_metagraph place advance_pool resolve set_status
done_advanced = refl

uninterrupted_applies_example : (apply hundredths config none 20 act arena).1 ≢ action act false
uninterrupted_applies_example =
    uninterrupted_applies hundredths config one_each false none 20 arena act arena-IsValid act_found
