-- ===== src/Staking.antt =====
-- The staking operations and their parameters, as server/src/stakingIntents.ts declares them.
use steakout.Prelude.{ℕ, Text, Bool, Option, none}

pub data Operation : Type 0 where
  new_staker stake set_active update_staker retire remove : Operation

-- A field is `none` where the source has no such property.
pub record IntentParams : Type 0 where
  pub value_luna : Option ℕ
  pub delegation : Option Text
  pub new_active_balance_luna : Option ℕ
  pub new_delegation : Option Text
  pub reactivate_all_stake : Option Bool
  pub retire_stake_luna : Option ℕ

abbrev pub no_params : IntentParams
no_params = record {
  value_luna = none;
  delegation = none;
  new_active_balance_luna = none;
  new_delegation = none;
  reactivate_all_stake = none;
  retire_stake_luna = none;
}
