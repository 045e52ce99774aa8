-- ===== src/Intents/Checks/Laws.antt =====
-- The checks as conditions on the balances of the chain.
use steakout.Prelude.{ℕ, ◌+◌, ◌≤◌, ◌<◌, ◌≡◌, ◌≢◌, Option, none, some, arith}
use steakout.Api.{Result, ok}
use steakout.Staking.{
  Operation, new_staker, stake, set_active, update_staker, retire, remove, IntentParams,
}
use steakout.Position.{PositionState, pending, StakerBalances, state_of_balances}
use steakout.Intents.Checks.{
  assert_within, assert_state_preconditions, assert_amount_against_position,
}

-- An amount, where there is one, is within a pool.
abbrev pub AtMost : Option ℕ → ℕ → Type 0
AtMost none pool = Unit
AtMost (some n) pool = n ≤ pool

-- What an operation needs of the balances on chain, in words of the protocol: a new staker has none;
-- stake is added or changed while some is staked and none retired; stake is retired out of what is
-- active or inactive; and it is removed out of what is retired, once all is.
abbrev pub Feasible : Operation → IntentParams → StakerBalances → Type 0
Feasible new_staker p b = (b.active_luna ≡ 0) × (b.inactive_luna ≡ 0) × (b.retired_luna ≡ 0)
Feasible stake p b = (0 < b.active_luna + b.inactive_luna) × (b.retired_luna ≡ 0)
Feasible set_active p b = (0 < b.active_luna + b.inactive_luna) × (b.retired_luna ≡ 0)
Feasible update_staker p b = (0 < b.active_luna + b.inactive_luna) × (b.retired_luna ≡ 0)
Feasible retire p b =
    (0 < b.active_luna + b.inactive_luna)
    × AtMost p.retire_stake_luna (b.active_luna + b.inactive_luna)
Feasible remove p b =
    (b.active_luna ≡ 0)
    × (b.inactive_luna ≡ 0)
    × (0 < b.retired_luna)
    × AtMost p.value_luna b.retired_luna

abbrev pub state_shown : StakerBalances → PositionState
state_shown b = state_of_balances b.active_luna b.inactive_luna b.retired_luna

assert_within-AtMost :
    (asked : Option ℕ) (pool : ℕ)
    → (elim asked as (λ _. Result (Unit {0})) [ none ↦ ok tt | some n ↦ assert_within n pool ])
      ≡ ok tt
    → AtMost asked pool
unfolding assert_within
assert_within-AtMost none pool h = tt
assert_within-AtMost (some n) pool h = ground arith

-- For a position with no pending action, the checks of state and amount pass only where the
-- operation is feasible on the balances that the chain returned.
pub checks-Feasible :
    (op : Operation) (p : IntentParams) (b : StakerBalances)
    → assert_state_preconditions op (state_shown b) ≡ ok tt
    → assert_amount_against_position op p b ≡ ok tt
    → Feasible op p b
unfolding assert_state_preconditions assert_amount_against_position state_of_balances
checks-Feasible new_staker p b h k = ground arith
checks-Feasible stake p b h k = ground arith
checks-Feasible set_active p b h k = ground arith
checks-Feasible update_staker p b h k = ground arith
checks-Feasible retire p b h k = (ground arith, assert_within-AtMost p.retire_stake_luna _ k)
checks-Feasible remove p b h k =
    (ground arith, ground arith, ground arith, assert_within-AtMost p.value_luna _ k)

-- While an action is pending no operation passes.
pub pending_blocks : (op : Operation) → assert_state_preconditions op pending ≢ ok tt
unfolding assert_state_preconditions
pending_blocks op h = ground arith
