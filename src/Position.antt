-- ===== src/Position.antt =====
-- server/src/stakingState.ts, the pure part: staker balances and the six position states.
pub mod Table
use steakout.Prelude.{
  ℕ, zero, suc, ◌+◌, Text, trim, is_empty, Bool, true, false, ◌&&◌, Option, none, some, ltb, ◌==◌,
  if◌then◌else◌,
}
use steakout.Prelude.Int.{to_nat}
use steakout.Prelude.Js.{Num, nonfinite, minus_infinity, real, NumField, is_finite}

pub data PositionState : Type 0 where
  not_staked pending active inactive retiring withdrawable : PositionState

-- The fields of `NimiqStaker` that are read; a `delegation` that is no text is `none`.
pub record NimiqStaker : Type 0 where
  pub balance : NumField
  pub inactive_balance : NumField
  pub retired_balance : NumField
  pub delegation : Option Text

pub record StakerBalances : Type 0 where
  pub active_luna : ℕ
  pub inactive_luna : ℕ
  pub retired_luna : ℕ
  pub total_luna : ℕ
  pub delegation : Option Text

unfoldable pub non_neg_int : Num → ℕ
non_neg_int nonfinite = 0
non_neg_int minus_infinity = 0
non_neg_int (real z exact) = to_nat z

-- `nonNegInt(value ?? 0)`, where `Number.isFinite` of anything but a number is false.
unfoldable pub luna_of : NumField → ℕ
unfolding non_neg_int
luna_of none = 0
luna_of (some n) = non_neg_int n

-- The ladder of tests after the total, in its order.
unfoldable pub state_of_balances : ℕ → ℕ → ℕ → PositionState
state_of_balances a i r =
    if (a + i + r) == 0
    then not_staked
    else if ltb 0 r && a == 0 && i == 0
    then withdrawable
    else if ltb 0 r
    then retiring
    else if ltb 0 i && a == 0
    then inactive
    else if ltb 0 a
    then active
    else not_staked

unfoldable pub normalize_position_state : Option NimiqStaker → Bool → PositionState
unfolding luna_of state_of_balances
normalize_position_state staker true = pending
normalize_position_state none false = not_staked
normalize_position_state (some s) false =
    state_of_balances (luna_of s.balance) (luna_of s.inactive_balance) (luna_of s.retired_balance)

abbrev pub no_balances : StakerBalances
no_balances = record {
  active_luna = 0;
  inactive_luna = 0;
  retired_luna = 0;
  total_luna = 0;
  delegation = none;
}

-- An empty or blank delegation counts as none.
unfoldable pub read_delegation : Option Text → Option Text
read_delegation none = none
read_delegation (some t) = if is_empty (trim t) then none else some t

readable_balances : NimiqStaker → StakerBalances
unfolding luna_of read_delegation
readable_balances s = record {
  active_luna = luna_of s.balance;
  inactive_luna = luna_of s.inactive_balance;
  retired_luna = luna_of s.retired_balance;
  total_luna = luna_of s.balance + luna_of s.inactive_balance + luna_of s.retired_balance;
  delegation = read_delegation s.delegation;
}

abbrev is_readable : NumField → Bool
is_readable none = false
is_readable (some n) = is_finite n

-- `none` is an unreadable payload.
unfoldable pub parse_staker_balances : Option NimiqStaker → Option StakerBalances
unfolding readable_balances
parse_staker_balances none = some no_balances
parse_staker_balances (some s) = if is_readable s.balance then some (readable_balances s) else none
