-- ===== src/Intents/Summary.antt =====
-- The summary for the review screen. `amountNim`, which is the amount over 100,000 in floating point,
-- is left out, and a note stands for its text.
use steakout.Prelude.{
  ℕ, Text, text, text_eq, trim, is_empty, map, Bool, true, false, ◌&&◌, ◌||◌, Option, none, some,
  ◌==◌, if◌then◌else◌,
}
use steakout.Addresses.{normalize_address}
use steakout.Staking.{
  Operation, new_staker, stake, set_active, update_staker, retire, remove, IntentParams,
}
use steakout.Position.{PositionState, not_staked, active, inactive, retiring}
use steakout.Database.{Database}
use steakout.Reading.{resolve_validator_name}
use steakout.Rpc.{to_lower}
use steakout.Intents.Checks.{truthy}

abbrev pub operation_label : Operation → Text
operation_label new_staker = text "Create staker"
operation_label stake = text "Add stake"
operation_label set_active = text "Set active stake"
operation_label update_staker = text "Change validator"
operation_label retire = text "Retire stake"
operation_label remove = text "Remove stake"

abbrev is_inactive : PositionState → Bool
is_inactive inactive = true
is_inactive _ = false

abbrev pub is_true : Option Bool → Bool
is_true none = false
is_true (some b) = b

abbrev is_zero_luna : Option ℕ → Bool
is_zero_luna none = false
is_zero_luna (some n) = n == 0

unfoldable pub to_state_hint : Operation → IntentParams → PositionState → PositionState
to_state_hint new_staker p from = active
to_state_hint stake p from = active
to_state_hint set_active p from =
    if is_zero_luna p.new_active_balance_luna then inactive else active
to_state_hint update_staker p from =
    if is_inactive from && is_true p.reactivate_all_stake then active else from
to_state_hint retire p from = retiring
to_state_hint remove p from = not_staked

abbrev pub or_else {ℓ} : {A : Type ℓ} → Option A → Option A → Option A
or_else none b = b
or_else (some a) b = some a

unfoldable pub amount_from_params : IntentParams → Option ℕ
amount_from_params p = or_else p.value_luna (or_else p.retire_stake_luna p.new_active_balance_luna)

unfoldable pub position_validator : Option Text → Option Text
position_validator none = none
position_validator (some t) = if is_empty t then none else some (normalize_address t)

unfoldable pub validator_from_params_and_position :
    Operation → IntentParams → Option Text → Option Text
unfolding position_validator truthy
validator_from_params_and_position new_staker p current =
    if truthy p.delegation then p.delegation else position_validator current
validator_from_params_and_position update_staker p current =
    if truthy p.new_delegation then p.new_delegation else position_validator current
validator_from_params_and_position _ p current = position_validator current

pub data WaitingNote : Type 0 where
  retire_waits remove_returns reactivate_requested delegation_changes active_adjusts : WaitingNote

unfoldable pub waiting_period_note : Operation → IntentParams → Option WaitingNote
waiting_period_note retire p = some retire_waits
waiting_period_note remove p = some remove_returns
waiting_period_note update_staker p =
    some (if is_true p.reactivate_all_stake then reactivate_requested else delegation_changes)
waiting_period_note set_active p = some active_adjusts
waiting_period_note _ p = none

pub data NetworkNote : Type 0 where
  on_mainnet on_testnet : NetworkNote
  on_network : Text → NetworkNote

-- The argument is `process.env.NIMIQ_NETWORK`.
unfoldable pub network_note : Option Text → NetworkNote
network_note none = on_mainnet
network_note (some raw) =
    let n = map to_lower (trim raw) in
    if text_eq n (text "main") || text_eq n (text "mainnet")
    then on_mainnet
    else if text_eq n (text "test") || text_eq n (text "testnet")
    then on_testnet
    else on_network n

pub record IntentSummary : Type 0 where
  pub operation : Operation
  pub label : Text
  pub amount_luna : Option ℕ
  pub validator_address : Option Text
  pub validator_name : Option Text
  pub from_state : PositionState
  pub to_state : PositionState
  pub waiting_note : Option WaitingNote
  pub network : NetworkNote

unfoldable pub build_summary :
    Database → Option Text → Operation → IntentParams → PositionState → Option Text → IntentSummary
unfolding to_state_hint amount_from_params validator_from_params_and_position waiting_period_note
build_summary db network op p from current =
    let validator = validator_from_params_and_position op p current in
    record {
      operation = op;
      label = operation_label op;
      amount_luna = amount_from_params p;
      validator_address = validator;
      validator_name = resolve_validator_name db validator;
      from_state = from;
      to_state = to_state_hint op p from;
      waiting_note = waiting_period_note op p;
      network = network_note network;
    }
