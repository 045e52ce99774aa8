-- ===== src/Examples/Data.antt =====
-- A user, a stake transaction, and the tables and the node that know them.
use steakout.Prelude.{Text, text, true, Option, none, some, [], ◌∷◌}
use steakout.Prelude.Js.{int, at}
use steakout.Api.{Result, ok, err}
use steakout.Rpc.{returned, failed, error, Transaction}
use steakout.Staking.{IntentParams, no_params, stake}
use steakout.Database.{Database, IntentRow, pending}
use steakout.Position.{NimiqStaker}
use steakout.Wallet.{WalletRpc}
use steakout.Reading.{PositionRpc}
use steakout.Intents.Request.{Value, string}

abbrev pub alice : Text
alice = text "NQ07 0000 0000 0000 0000 0000 0000 0000 0000"

abbrev pub alice_normal : Text
alice_normal = text "NQ0700000000000000000000000000000000"

abbrev pub stake_hash : Text
stake_hash = text "00000000000000000000000000000000000000000000000000000000000000ab"

abbrev pub stake_tx : Transaction
stake_tx = record {
  hash = stake_hash;
  from = alice_normal;
  to = text "NQ77";
  value = int 5;
  execution_result = true;
  block_number = some (int 9);
}

abbrev pub stake_params : IntentParams
stake_params = record no_params { value_luna = some 5 }

abbrev pub stake_row : IntentRow
stake_row = record {
  id = text "i";
  user_address = alice_normal;
  operation = stake;
  params_json = some stake_params;
  status = pending;
  tx_hash = none;
  expires_at = at 2000;
  confirmed_at = none;
}

abbrev pub empty_db : Database
empty_db = record { staking_intents = []; staker_snapshots = []; validators = [] }

abbrev pub stake_db : Database
stake_db = record empty_db { staking_intents = stake_row ∷ [] }

abbrev pub alice_staker : NimiqStaker
alice_staker = record {
  balance = some (int 70);
  inactive_balance = some (int 0);
  retired_balance = some (int 0);
  delegation = none;
}

abbrev pub silent_wallet : WalletRpc
silent_wallet = record {
  get_account = λ a. failed (error []);
  get_transactions = λ a n. failed (error []);
}

abbrev pub node : PositionRpc
node = record {
  wallet = silent_wallet;
  get_staker = λ a. returned alice_staker;
  get_block = failed (error []);
}

abbrev pub or_else : {A : Type 0} → Result A → A → A
or_else (ok a) b = a
or_else (err e) b = b

abbrev pub id_value : Value
id_value = string (text "i")

abbrev pub hash_value : Value
hash_value = string stake_hash

abbrev pub no_tx : Text → Option Text
no_tx t = none
