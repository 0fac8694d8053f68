-- ===== src/Weights/Schedule.antt =====
-- tau/weights/schedule.py. Block numbers, the tempo and the margin are naturals, so `tempo <= 0` is
-- `tempo == 0`, and `max(0, a - b)` is the truncated `-`.
use ninja_validator.Base.{ℕ, ◌+◌, ◌-◌, ◌%◌, Bool, ◌&&◌, leb, eqb, if◌then◌else◌}
pub mod Earliest

pub record SetDecision : Type 0 where
  pub proceed : Bool
  pub rate_off_blocks : ℕ
  pub epoch_blocks : ℕ
  pub next_try_block : ℕ

unfoldable pub blocks_until_next_epoch : (current_block tempo netuid : ℕ) → ℕ
blocks_until_next_epoch current_block tempo netuid =
    if eqb tempo 0 then 0 else tempo - (current_block + netuid + 1) % (tempo + 1)

unfoldable pub should_set :
    (current_block tempo netuid blocks_since_last_update weights_rate_limit set_margin : ℕ)
    → SetDecision
should_set current_block tempo netuid blocks_since_last_update weights_rate_limit set_margin =
    let rate_off = weights_rate_limit - blocks_since_last_update in
    let epoch = blocks_until_next_epoch current_block tempo netuid in
    let rate_clear = current_block + rate_off in
    let margin_wait = blocks_until_next_epoch rate_clear tempo netuid - set_margin in
    record {
      proceed = eqb rate_off 0 && leb epoch set_margin;
      rate_off_blocks = rate_off;
      epoch_blocks = epoch;
      next_try_block = rate_clear + margin_wait;
    }
