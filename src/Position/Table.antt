-- ===== src/Position/Table.antt =====
-- The state table at the head of stakingState.ts, and the state machine against it.
use steakout.Prelude.{ℕ, ◌<◌, ◌≡◌, ◌≢◌, sym, ◌∙◌, ◌↔◌, ◌⊎◌, none, some, false, arith}
use steakout.Position.{
  PositionState, not_staked, pending, active, inactive, retiring, withdrawable, NimiqStaker,
  StakerBalances, state_of_balances, normalize_position_state, parse_staker_balances,
}

-- The row of the table for a state: what it says of the active, inactive and retired balances.
abbrev pub Row : PositionState → ℕ → ℕ → ℕ → Type 0
Row not_staked a i r = (a ≡ 0) × (i ≡ 0) × (r ≡ 0)
Row pending a i r = ⊥
Row active a i r = (0 < a) × (r ≡ 0)
Row inactive a i r = (0 < i) × (a ≡ 0) × (r ≡ 0)
Row retiring a i r = (0 < r) × ((0 < a) ⊎ (0 < i))
Row withdrawable a i r = (0 < r) × (a ≡ 0) × (i ≡ 0)

to_Row : (s : PositionState) (a i r : ℕ) → state_of_balances a i r ≡ s → Row s a i r
unfolding state_of_balances
to_Row not_staked a i r h = ground arith
to_Row pending a i r h = ground arith
to_Row active a i r h = ground arith
to_Row inactive a i r h = ground arith
to_Row retiring a i r h = ground arith
to_Row withdrawable a i r h = ground arith

of_Row : (s : PositionState) (a i r : ℕ) → Row s a i r → state_of_balances a i r ≡ s
unfolding state_of_balances
of_Row not_staked a i r h = ground arith
of_Row pending a i r h = absurd h
of_Row active a i r h = ground arith
of_Row inactive a i r h = ground arith
of_Row retiring a i r h = ground arith
of_Row withdrawable a i r h = ground arith

pub state_of_parsed :
    (staker : NimiqStaker) (b : StakerBalances)
    → parse_staker_balances (some staker) ≡ some b
    → normalize_position_state (some staker) false
      ≡ state_of_balances b.active_luna b.inactive_luna b.retired_luna
unfolding parse_staker_balances normalize_position_state
state_of_parsed staker b h = ground arith

-- For a staker whose payload is readable and no pending action, the state is `s` exactly when the
-- row of the table for `s` holds of the balances that are shown; the table so covers every case
-- once.
pub normalize_position_state-table :
    (staker : NimiqStaker) (b : StakerBalances) (s : PositionState)
    → parse_staker_balances (some staker) ≡ some b
    → (normalize_position_state (some staker) false ≡ s)
      ↔ Row s b.active_luna b.inactive_luna b.retired_luna
normalize_position_state-table staker b s h =
    let e = state_of_parsed staker b h in
    (
      λ p. to_Row s b.active_luna b.inactive_luna b.retired_luna (sym e ∙ p),
      λ p. e ∙ of_Row s b.active_luna b.inactive_luna b.retired_luna p,
    )

-- An unreadable payload is never shown as an active position, and it has no balances.
pub unreadable-not_active :
    (staker : NimiqStaker)
    → parse_staker_balances (some staker) ≡ none
    → normalize_position_state (some staker) false ≢ active
unfolding parse_staker_balances normalize_position_state
unreadable-not_active staker h = ground arith
