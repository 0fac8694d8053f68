-- ===== src/Weights/Schedule/Earliest.antt =====
-- `next_try_block` is the first block at which the weights may be set.
use ninja_validator.Base.{
  ℕ, zero, suc, ◌+◌, ◌-◌, ◌%◌, ◌≤◌, ◌<◌, ◌≡◌, true, false, arith, ap, sym, ◌∙◌,
}
use native.Mathlib.Nat.{mod-lt, mod-eq_of_lt, mod-add-mod}
use ninja_validator.Weights.Schedule.{SetDecision, blocks_until_next_epoch, should_set}

mod-add_small : (x k n : ℕ) → x % n + k < n → (x + k) % n ≡ x % n + k
mod-add_small x k n h = sym (mod-add-mod x n k) ∙ mod-eq_of_lt h

-- Within an epoch the blocks that are left count down.
until-add :
    (b tempo netuid k : ℕ)
    → k ≤ blocks_until_next_epoch b tempo netuid
    → blocks_until_next_epoch (b + k) tempo netuid + k ≡ blocks_until_next_epoch b tempo netuid
unfolding blocks_until_next_epoch
until-add b zero netuid k h = ground arith
until-add b (suc t) netuid k h =
    let n = suc t + 1 in
    let x = b + netuid + 1 in
    let bound : x % n < n = mod-lt x (omega arith) in
    let fits : k ≤ suc t - x % n = ground arith in
    let shift : (b + k + netuid + 1) % n ≡ x % n + k =
      ap (λ (y : ℕ). y % n) (omega arith) ∙ mod-add_small x k n (omega arith) in
    ground (arith, shift)

module _ (block tempo netuid since limit margin : ℕ) where
  -- The decision `k` blocks later, if no weights are set in between.
  abbrev pub later : ℕ → SetDecision
  later k = should_set (block + k) tempo netuid (since + k) limit margin

  -- The wait that a decision announces is exact: at `next_try_block` the weights may be set, and at
  -- no block before it. So it is the present block just when the decision is to proceed.
  pub next_try_exact :
      let d = should_set block tempo netuid since limit margin in
      (block ≤ d.next_try_block)
      × ((later (d.next_try_block - block)).proceed ≡ true)
      × ((k : ℕ) → block + k < d.next_try_block → (later k).proceed ≡ false)
  unfolding should_set
  next_try_exact =
      let off = limit - since in
      let clear = block + off in
      let left = blocks_until_next_epoch clear tempo netuid in
      (
        omega arith,
        ground (arith, until-add clear tempo netuid (left - margin)),
        λ k h. ground (arith, until-add clear tempo netuid (k - off)),
      )
