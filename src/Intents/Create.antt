-- ===== src/Intents/Create.antt =====
-- `createStakingIntent`. What other requests write while the position is read is the argument
-- `meanwhile`.
pub mod Laws
use steakout.Prelude.{
  ℕ, zero, suc, ◌+◌, ◌*◌, Text, Bool, true, false, ◌&&◌, Option, none, some, List, if◌then◌else◌,
}
use steakout.Prelude.Js.{Iso, at}
use steakout.Addresses.{normalize_address}
use steakout.Api.{Result, ok, err, ApiError, api_error, rpc_unavailable, ◌>>=◌, ◌>>◌}
use steakout.Staking.{Operation, IntentParams}
use steakout.Database.{Database, IntentRow, pending}
use steakout.Position.{PositionState, StakerBalances}
use steakout.Reading.{Envelope, PositionCache, PositionRpc, ReadOptions, read_staking_position}
use steakout.Intents.Request.{
  Value, absent, null, object, end, parse_operation, parse_and_validate_params,
}
use steakout.Intents.Checks.{
  assert_state_preconditions, assert_amount_against_position, assert_new_validator,
}
use steakout.Intents.Summary.{IntentSummary, build_summary}
use steakout.Intents.Rows.{expire_abandoned_pending_intents, insert_intent}

abbrev pub intent_ttl_ms : ℕ
intent_ttl_ms = 15 * 60000

-- The clock, `randomUUID()`, the network setting, the RPC and the other requests.
pub record CreateEnv : Type 0 where
  pub now_ms : ℕ
  pub fresh_id : Text
  pub network : Option Text
  pub rpc : PositionRpc
  pub meanwhile : Database → Database

pub record CreateIntentResult : Type 0 where
  pub intent_id : Text
  pub expires_at : Iso
  pub summary : IntentSummary

-- `body.params ?? {}`
unfoldable pub or_empty : Value → Value
or_empty absent = object end
or_empty null = object end
or_empty v = v

unfoldable pub parse_request : Value → Value → Result (Operation × IntentParams)
unfolding or_empty
parse_request operation params = do
  op ← parse_operation operation
  p ← parse_and_validate_params op (or_empty params)
  ok (op, p)

unfoldable pub check_position : Operation → IntentParams → Envelope → Result (Unit {0})
check_position op p position = do
  assert_state_preconditions op position.state
  assert_amount_against_position op p position.staker
  assert_new_validator op p position.staker.delegation

-- The row that is recorded.
unfoldable pub new_intent : CreateEnv → Text → Operation → IntentParams → IntentRow
new_intent env address op p = record {
  id = env.fresh_id;
  user_address = address;
  operation = op;
  params_json = some p;
  status = pending;
  tx_hash = none;
  expires_at = at (env.now_ms + intent_ttl_ms);
  confirmed_at = none;
}

-- What is returned after the `INSERT`. Its failure is an error that the route answers as 503.
unfoldable pub after_insert :
    CreateEnv
    → Database
    → Operation
    → IntentParams
    → Envelope
    → Option Database
    → Result CreateIntentResult × Database
after_insert env db op p position none = (err (api_error 503 rpc_unavailable), db)
after_insert env db op p position (some db') = (
  ok (record {
    intent_id = env.fresh_id;
    expires_at = at (env.now_ms + intent_ttl_ms);
    summary = build_summary db env.network op p position.state position.staker.delegation;
  }),
  db',
)

unfoldable pub after_check :
    CreateEnv
    → Database
    → Text
    → Operation
    → IntentParams
    → Envelope
    → Result (Unit {0})
    → Result CreateIntentResult × Database
unfolding after_insert
after_check env db address op p position (err e) = (err e, db)
after_check env db address op p position (ok _) =
    after_insert env db op p position (insert_intent db (new_intent env address op p))

unfoldable pub after_position :
    CreateEnv
    → Database
    → Text
    → Operation
    → IntentParams
    → Result Envelope
    → Result CreateIntentResult × Database
unfolding after_check
after_position env db address op p (err e) = (err e, db)
after_position env db address op p (ok position) =
    after_check env db address op p position (check_position op p position)

abbrev pub create_read : ℕ → Text → ReadOptions
create_read now_ms address = record {
  address = address;
  now_ms = now_ms;
  has_pending_tx = none;
  bypass_cache = true;
  skip_htlc_scan = false;
}

unfoldable pub after_parse :
    CreateEnv
    → Database
    → PositionCache
    → Text
    → Result (Operation × IntentParams)
    → Result CreateIntentResult × Database
after_parse env db cache address (err e) = (err e, db)
after_parse env db cache address (ok (op, p)) =
    let cleared = (expire_abandoned_pending_intents db address).0 in
    let (position, db', _) =
      read_staking_position env.rpc cleared cache (create_read env.now_ms address) in
    after_position env (env.meanwhile db') address op p position

-- A read that bypasses the cache leaves it alone, so the cache is not returned.
unfoldable pub create_staking_intent :
    CreateEnv
    → Database
    → PositionCache
    → Text
    → Value
    → Value
    → Result CreateIntentResult × Database
unfolding after_parse after_position check_position parse_request new_intent
create_staking_intent env db cache user_address operation params =
    after_parse env db cache (normalize_address user_address) (parse_request operation params)
