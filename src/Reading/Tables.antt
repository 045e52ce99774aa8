-- ===== src/Reading/Tables.antt =====
-- readStakingPosition (server/src/stakingState.ts) and the table of intents.
use steakout.Prelude.{◌≡◌, refl, Bool, true, false, Option, none, some, arith}
use steakout.Api.{Result, ok, err}
use steakout.Rpc.{Reply}
use steakout.Prelude.Js.{NumField}
use steakout.Position.{NimiqStaker}
use steakout.Database.{Database}
use steakout.Reading.{
  Envelope, PositionCache, PositionRpc, ReadOptions, record_position, after_staker, after_lookup,
  read_staking_position, cache_lookup,
}

module _ (rpc : PositionRpc) (db : Database) (cache : PositionCache) (o : ReadOptions) where
  record_position-intents :
      (block : Reply NumField) (p : Envelope × Bool)
      → (record_position db cache o block p).1.staking_intents ≡ db.staking_intents
  unfolding record_position
  record_position-intents block (env, false) = refl
  record_position-intents block (env, true) = ground arith

  after_staker-intents :
      (r : Result (Option NimiqStaker))
      → (after_staker rpc db cache o r).1.staking_intents ≡ db.staking_intents
  unfolding after_staker
  after_staker-intents (err e) = refl
  after_staker-intents (ok staker) = record_position-intents rpc.get_block _

  after_lookup-intents :
      (hit : Option Envelope)
      → (after_lookup rpc db cache o hit).1.staking_intents ≡ db.staking_intents
  unfolding after_lookup
  after_lookup-intents (some env) = refl
  after_lookup-intents none = after_staker-intents _

  pub read_staking_position-intents :
      (read_staking_position rpc db cache o).1.staking_intents ≡ db.staking_intents
  unfolding read_staking_position
  read_staking_position-intents = after_lookup-intents (cache_lookup cache o)
