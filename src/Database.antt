-- ===== src/Database.antt =====
-- The SQLite tables that the modelled code reads and writes (server/src/db.ts), as lists of rows in
-- the order of insertion.
use steakout.Prelude.{ℕ, Text, Option, List}
use steakout.Prelude.Js.{Iso}
use steakout.Staking.{Operation, IntentParams}

-- `unknown` is any text that the code never writes.
pub data IntentStatus : Type 0 where
  pending confirmed failed expired unknown : IntentStatus

-- `params_json` is `none` where the text does not parse to an object.
pub record IntentRow : Type 0 where
  pub id : Text
  pub user_address : Text
  pub operation : Operation
  pub params_json : Option IntentParams
  pub status : IntentStatus
  pub tx_hash : Option Text
  pub expires_at : Iso
  pub confirmed_at : Option Iso

pub record SnapshotRow : Type 0 where
  pub user_address : Text
  pub validator_address : Option Text
  pub active_balance_luna : ℕ
  pub inactive_balance_luna : ℕ
  pub retired_balance_luna : ℕ
  pub total_balance_luna : ℕ
  pub observed_at : Iso
  pub source_block : ℕ

pub record ValidatorRow : Type 0 where
  pub address : Text
  pub name : Option Text
  pub reward_address : Option Text

pub record Database : Type 0 where
  pub staking_intents : List IntentRow
  pub staker_snapshots : List SnapshotRow
  pub validators : List ValidatorRow
