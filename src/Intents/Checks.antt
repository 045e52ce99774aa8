-- ===== src/Intents/Checks.antt =====
-- What is checked against the position before an intent is recorded.
pub mod Laws
use steakout.Prelude.{
  ℕ, ◌+◌, Text, is_empty, Bool, true, false, not, ◌&&◌, ◌||◌, Option, none, some, ltb, leb, ◌==◌,
  if◌then◌else◌,
}
use steakout.Addresses.{addresses_equal}
use steakout.Api.{Result, ok, err, invalid, require, ◌>>=◌, ◌>>◌}
use steakout.Staking.{
  Operation, new_staker, stake, set_active, update_staker, retire, remove, IntentParams,
}
use steakout.Position.{
  PositionState, not_staked, pending, active, inactive, retiring, withdrawable, StakerBalances,
}

-- The states in which `assertStatePreconditions` does not throw.
unfoldable pub allows : Operation → PositionState → Bool
allows new_staker not_staked = true
allows stake active = true
allows stake inactive = true
allows set_active active = true
allows set_active inactive = true
allows update_staker active = true
allows update_staker inactive = true
allows retire active = true
allows retire inactive = true
allows retire retiring = true
allows remove withdrawable = true
allows _ _ = false

unfoldable pub assert_state_preconditions : Operation → PositionState → Result (Unit {0})
unfolding allows
assert_state_preconditions op state = require (allows op state) invalid

-- A pool with nothing in it is an error of its own, before the comparison.
unfoldable pub assert_within : ℕ → ℕ → Result (Unit {0})
assert_within asked pool =
    if leb pool 0 then err invalid else if ltb pool asked then err invalid else ok tt

unfoldable pub assert_amount_against_position :
    Operation → IntentParams → StakerBalances → Result (Unit {0})
unfolding assert_within
assert_amount_against_position retire p b = elim p.retire_stake_luna [
  | none ↦ ok tt
  | some asked ↦ assert_within asked (b.active_luna + b.inactive_luna)
]
assert_amount_against_position remove p b = elim p.value_luna [
  | none ↦ ok tt
  | some asked ↦ assert_within asked b.retired_luna
]
assert_amount_against_position _ p b = ok tt

-- A text that is truthy.
unfoldable pub truthy : Option Text → Bool
truthy none = false
truthy (some t) = not (is_empty t)

-- A change of validator must name another one.
unfoldable pub assert_new_validator : Operation → IntentParams → Option Text → Result (Unit {0})
unfolding truthy
assert_new_validator update_staker p current =
    require
      (not (truthy p.new_delegation && truthy current && addresses_equal p.new_delegation current))
      invalid
assert_new_validator _ p current = ok tt
