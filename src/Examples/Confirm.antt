-- ===== src/Examples/Confirm.antt =====
-- The confirmation of a stake of five Luna.
use steakout.Prelude.{ℕ, ◌≡◌, refl, Text, text, none, some, List, [], ◌∷◌}
use steakout.Addresses.{normalize_address}
use steakout.Api.{ok, err, invalid, ApiError}
use steakout.Rpc.{returned}
use steakout.Database.{Database, IntentRow, expired}
use steakout.Intents.Rows.{get_intent_by_id, expire_abandoned_pending_intents}
use steakout.Intents.Machine.{idle, cancelled, settled_forever}
use steakout.Intents.Confirm.{
  ConfirmEnv, ConfirmSuccess, confirm_staking_intent, position_or_unavailable, intent_id_of,
}
use steakout.Intents.Confirm.Laws.{Evidence, confirm_sound}
use steakout.Intents.Confirm.Once.{confirm_once}
use steakout.Examples.Data.{
  alice, stake_tx, stake_row, empty_db, stake_db, node, or_else, id_value, hash_value, no_tx,
}

abbrev env : ConfirmEnv
env = record {
  now_ms = 1000;
  from_any = no_tx;
  fetch_tx = λ h. returned (some stake_tx);
  rpc = node;
  fetching = λ d. d;
  reading = λ d. d;
}

abbrev won : ConfirmSuccess
unfolding confirm_staking_intent
won =
    or_else (confirm_staking_intent env stake_db [] alice id_value hash_value).0
      (record { block_number = none; position = position_or_unavailable 0 (err invalid) })

confirm_succeeds : (confirm_staking_intent env stake_db [] alice id_value hash_value).0 ≡ ok won
unfolding confirm_staking_intent intent_id_of steakout.Prelude.trim
    steakout.Intents.Request.normalize_provider_tx_ref steakout.Intents.Request.try_derive_tx_hash
    steakout.Intents.Request.is_tx_hash_hex steakout.Rpc.without_prefix
    steakout.Intents.Rows.get_intent_by_id steakout.Prelude.text_eq
    steakout.Addresses.addresses_equal steakout.Addresses.is_valid_nimiq_address
    steakout.Addresses.has_address_shape normalize_address steakout.Addresses.to_upper
    steakout.Intents.Confirm.match_amount steakout.Intents.Rows.confirm_intent
    steakout.Intents.Confirm.show_position
confirm_succeeds = refl

confirm_sound_example :
    (i : Text) × (intent_id_of id_value ≡ ok i) × Evidence env stake_db (normalize_address alice) i
confirm_sound_example = confirm_sound env stake_db [] alice id_value hash_value won confirm_succeeds

abbrev settled_row : IntentRow
settled_row = record stake_row { status = expired }

abbrev settled_db : Database
settled_db = record empty_db { staking_intents = settled_row ∷ [] }

settled_found : get_intent_by_id settled_db (text "i") ≡ some settled_row
unfolding get_intent_by_id steakout.Prelude.text_eq
settled_found = refl

named : intent_id_of id_value ≡ ok (text "i")
unfolding intent_id_of steakout.Prelude.trim
named = refl

confirm_once_example :
    (e : ApiError) × (confirm_staking_intent env
        (confirm_staking_intent env stake_db [] alice id_value hash_value).1
        []
        alice
        id_value
        hash_value
      ≡ (err e, (confirm_staking_intent env stake_db [] alice id_value hash_value).1, []))
confirm_once_example =
    confirm_once env env stake_db
      (confirm_staking_intent env stake_db [] alice id_value hash_value).1 [] [] alice alice
      (text "i") id_value id_value hash_value hash_value won (λ d. idle d) (λ d. idle d) named named
      confirm_succeeds (idle (confirm_staking_intent env stake_db [] alice id_value hash_value).1)

settled_forever_example :
    get_intent_by_id (expire_abandoned_pending_intents settled_db alice).0 (text "i")
    ≡ some settled_row
settled_forever_example =
    settled_forever (text "i") settled_row (cancelled settled_db alice) settled_found refl
