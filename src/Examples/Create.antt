-- ===== src/Examples/Create.antt =====
-- Recording an intent to stake five Luna, and confirming it.
use steakout.Prelude.{ℕ, ◌≡◌, refl, Text, text, true, ◌≢◌, none, some, [], ◌∷◌, arith}
use steakout.Addresses.{normalize_address, addresses_equal, is_valid_nimiq_address}
use steakout.Api.{ok, is_ok}
use steakout.Staking.{stake, retire, remove, IntentParams, no_params}
use steakout.Rpc.{returned}
use steakout.Position.{active, pending, no_balances, StakerBalances}
use steakout.Intents.Request.{
  Value, string, number, object, field, end, parse_and_validate_params, normalize_provider_tx_ref,
  is_tx_hash_hex,
}
use steakout.Intents.Request.Laws.{IsWellFormed, parse_params-IsWellFormed, tx_ref_is_hash}
use steakout.Intents.Checks.{assert_state_preconditions, assert_amount_against_position}
use steakout.Intents.Checks.Laws.{Feasible, state_shown, checks-Feasible, pending_blocks}
use steakout.Intents.Summary.{build_summary}
use steakout.Intents.Create.{CreateEnv, CreateIntentResult, create_staking_intent, parse_request}
use steakout.Intents.Create.Laws.{Recorded, create_sound}
use steakout.Intents.Confirm.{ConfirmEnv, confirm_staking_intent, intent_id_of, match_amount}
use steakout.Intents.Journey.{create_then_confirm}
use steakout.Prelude.Js.{int, at}
use steakout.Examples.Data.{
  alice, stake_tx, stake_hash, stake_params, empty_db, node, id_value, hash_value, no_tx,
}

abbrev create_env : CreateEnv
create_env = record {
  now_ms = 1000;
  fresh_id = text "i";
  network = none;
  rpc = node;
  meanwhile = λ d. d;
}

abbrev operation : Value
operation = string (text "stake")

abbrev params : Value
params = object (field (text "valueLuna") (number (int 5)) end)

abbrev confirm_env : ConfirmEnv
confirm_env = record {
  now_ms = 1000;
  from_any = no_tx;
  fetch_tx = λ h. returned (some stake_tx);
  rpc = node;
  fetching = λ d. d;
  reading = λ d. d;
}

abbrev created : CreateIntentResult
created = record {
  intent_id = text "i";
  expires_at = at 901000;
  summary = build_summary empty_db none stake stake_params active none;
}

create_succeeds :
    (create_staking_intent create_env empty_db [] alice operation params).0 ≡ ok created
unfolding create_staking_intent steakout.Intents.Request.parse_operation
    steakout.Intents.Request.operation_of steakout.Prelude.text_eq parse_and_validate_params
    steakout.Intents.Request.read_params steakout.Intents.Request.optional
    steakout.Intents.Request.positive_luna steakout.Intents.Request.has_required
    steakout.Reading.read_staking_position steakout.Reading.read_staker
    steakout.Reading.record_position steakout.Reading.position_of
    steakout.Position.parse_staker_balances steakout.Position.normalize_position_state
    steakout.Reading.pending_tx steakout.Intents.Rows.expire_abandoned_pending_intents
    assert_state_preconditions assert_amount_against_position
    steakout.Intents.Checks.assert_new_validator steakout.Intents.Rows.insert_intent
create_succeeds = refl

create_sound_example :
    Recorded create_env empty_db [] alice operation params created
      (create_staking_intent create_env empty_db [] alice operation params).1
create_sound_example =
    create_sound create_env empty_db [] alice operation params created create_succeeds

alice_valid : is_valid_nimiq_address (some alice) ≡ true
unfolding is_valid_nimiq_address steakout.Prelude.trim steakout.Addresses.has_address_shape
    normalize_address steakout.Addresses.to_upper
alice_valid = refl

parsed : parse_request operation params ≡ ok (stake, stake_params)
unfolding parse_request steakout.Intents.Request.parse_operation
    steakout.Intents.Request.operation_of steakout.Prelude.text_eq parse_and_validate_params
    steakout.Intents.Request.read_params steakout.Intents.Request.optional
    steakout.Intents.Request.positive_luna steakout.Intents.Request.has_required
parsed = refl

named : intent_id_of id_value ≡ ok (text "i")
unfolding intent_id_of steakout.Prelude.trim
named = refl

hashed : normalize_provider_tx_ref no_tx hash_value ≡ ok stake_hash
unfolding normalize_provider_tx_ref steakout.Prelude.trim
    steakout.Intents.Request.try_derive_tx_hash is_tx_hash_hex steakout.Rpc.without_prefix
    steakout.Rpc.normalize_tx_hash
hashed = refl

sender : addresses_equal (some stake_tx.from) (some (normalize_address alice)) ≡ true
unfolding addresses_equal is_valid_nimiq_address steakout.Prelude.trim
    steakout.Addresses.has_address_shape normalize_address steakout.Addresses.to_upper
    steakout.Prelude.text_eq
sender = refl

amount : match_amount stake_params stake_tx.value ≡ true
unfolding match_amount
amount = refl

create_then_confirm_example :
    is_ok
      (confirm_staking_intent confirm_env
        (create_staking_intent create_env empty_db [] alice operation params).1
        []
        alice
        id_value
        hash_value).0
    ≡ true
create_then_confirm_example =
    create_then_confirm create_env confirm_env empty_db [] [] alice operation params id_value
      hash_value stake_hash stake_tx stake stake_params created alice_valid parsed create_succeeds
      (omega arith) (λ d. refl) named hashed refl refl sender amount

params_parsed : parse_and_validate_params stake params ≡ ok stake_params
unfolding parse_and_validate_params steakout.Intents.Request.read_params
    steakout.Intents.Request.optional steakout.Prelude.text_eq
    steakout.Intents.Request.positive_luna steakout.Intents.Request.has_required
params_parsed = refl

parse_params-IsWellFormed_example : IsWellFormed stake stake_params
parse_params-IsWellFormed_example =
    parse_params-IsWellFormed stake params stake_params params_parsed

tx_ref_is_hash_example : is_tx_hash_hex stake_hash ≡ true
tx_ref_is_hash_example = tx_ref_is_hash no_tx hash_value stake_hash hashed

abbrev staked : StakerBalances
staked = record no_balances { active_luna = 7; total_luna = 7 }

abbrev retire_params : IntentParams
retire_params = record no_params { retire_stake_luna = some 6 }

state_passes : assert_state_preconditions retire (state_shown staked) ≡ ok tt
unfolding assert_state_preconditions steakout.Position.state_of_balances
state_passes = refl

amount_passes : assert_amount_against_position retire retire_params staked ≡ ok tt
unfolding assert_amount_against_position
amount_passes = refl

checks-Feasible_example : Feasible retire retire_params staked
checks-Feasible_example = checks-Feasible retire retire_params staked state_passes amount_passes

pending_blocks_example : assert_state_preconditions remove pending ≢ ok tt
pending_blocks_example = pending_blocks remove
