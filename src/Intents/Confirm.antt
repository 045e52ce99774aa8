-- ===== src/Intents/Confirm.antt =====
-- `confirmStakingIntent`. `fetching` and `reading` are what other requests write while the
-- transaction is fetched and before the position is read.
pub mod Laws
pub mod Once
use steakout.Prelude.{
  ℕ, zero, suc, Text, text_eq, trim, is_empty, Bool, true, false, not, ◌&&◌, ◌||◌, Option, none,
  some, [], ltb, leb, ◌==◌, if◌then◌else◌,
}
use steakout.Prelude.Js.{Num, nonfinite, minus_infinity, real, NumField, Iso, at, parse_date}
use steakout.Prelude.Int.{pos, negsuc}
use steakout.Addresses.{normalize_address, addresses_equal}
use steakout.Api.{
  Result, ok, err, ApiError, api_error, invalid, intent_not_found, tx_pending, tx_failed,
  tx_mismatch,
}
use steakout.Rpc.{Reply, returned, Transaction, normalize_tx_hash, to_rpc_api_error}
use steakout.Rpc
use steakout.Staking.{IntentParams, no_params}
use steakout.Database.{Database, IntentRow, IntentStatus, pending}
use steakout.Position.{not_staked, no_balances}
use steakout.Reading.{
  Envelope, PositionCache, PositionRpc, ReadOptions, read_staking_position, is_pending,
  unavailable_envelope,
}
use steakout.Intents.Request.{Value, string, normalize_provider_tx_ref}
use steakout.Intents.Rows.{get_intent_by_id, expire_intent, fail_intent, confirm_intent}

pub record ConfirmEnv : Type 0 where
  pub now_ms : ℕ
  pub from_any : Text → Option Text
  pub fetch_tx : Text → Reply (Option Transaction)
  pub rpc : PositionRpc
  pub fetching : Database → Database
  pub reading : Database → Database

pub record ConfirmSuccess : Type 0 where
  pub block_number : Option Num
  pub position : Envelope

abbrev pub not_found : ApiError
not_found = api_error 404 intent_not_found

abbrev pub Outcome : Type 0
Outcome = Result ConfirmSuccess × Database × PositionCache

unfoldable pub intent_id_of : Value → Result Text
intent_id_of (string t) = if is_empty (trim t) then err invalid else ok (trim t)
intent_id_of _ = err invalid

-- `!Number.isFinite(expiresAtMs) || expiresAtMs <= nowMs`
unfoldable pub is_expired_by : Option ℕ → ℕ → Bool
is_expired_by none now_ms = true
is_expired_by (some t) now_ms = leb t now_ms

pub data Admission : Type 0 where
  refused : ApiError → Admission
  lapsed : Admission
  admitted : IntentRow → Admission

-- The checks of the row, up to the expiry.
unfoldable pub admit : Option IntentRow → Text → ℕ → Admission
unfolding is_expired_by
admit none address now_ms = refused not_found
admit (some row) address now_ms =
    if not (addresses_equal (some row.user_address) (some address))
    then refused not_found
    else if not (is_pending row.status)
    then refused invalid
    else if is_expired_by (parse_date row.expires_at) now_ms
    then lapsed
    else admitted row

abbrev pub stored_params : Option IntentParams → IntentParams
stored_params none = no_params
stored_params (some p) = p

unfoldable pub is_luna : ℕ → Num → Bool
is_luna n (real (pos m) true) = n == m
is_luna n _ = false

unfoldable pub match_amount : IntentParams → Num → Bool
unfolding is_luna
match_amount p value = elim p.value_luna [
  | some n ↦ is_luna n value
  | none ↦ elim p.retire_stake_luna [ some n ↦ is_luna n value | none ↦ true ]
]

pub data Verdict : Type 0 where
  execution_failed mismatch matched : Verdict

unfoldable pub judge : IntentRow → Text → Transaction → Verdict
judge row address tx =
    if not tx.execution_result
    then execution_failed
    else if not (addresses_equal (some tx.from) (some address))
    then mismatch
    else if not (match_amount (stored_params row.params_json) tx.value)
    then mismatch
    else matched

-- The hash that is stored: the chain's where it has one.
unfoldable pub confirmed_hash : Transaction → Text → Text
confirmed_hash tx tx_hash = normalize_tx_hash (if is_empty (trim tx.hash) then tx_hash else tx.hash)

abbrev pub finite_block : NumField → Option Num
finite_block none = none
finite_block (some nonfinite) = none
finite_block (some minus_infinity) = none
finite_block (some (real z exact)) = some (real z exact)

abbrev pub confirm_read : ℕ → Text → ReadOptions
confirm_read now_ms address = record {
  address = address;
  now_ms = now_ms;
  has_pending_tx = some false;
  bypass_cache = true;
  skip_htlc_scan = false;
}

-- The position shown where the read after the confirmation fails.
abbrev pub position_or_unavailable : ℕ → Result Envelope → Envelope
position_or_unavailable now_ms (ok position) = position
position_or_unavailable now_ms (err e) =
    unavailable_envelope now_ms
      (record {
        account_balance_luna = none;
        htlc_balance_luna = 0;
        wallet_balance_luna = none;
        htlc_count = 0;
      })
      no_balances

module _ (env : ConfirmEnv) (address : Text) where
  -- After the row is confirmed the cache is cleared and the position read again.
  unfoldable pub show_position : Database → Transaction → Outcome
  show_position db tx =
      let (position, db', cache) =
        read_staking_position env.rpc (env.reading db) [] (confirm_read env.now_ms address) in
      (
        ok (record {
          block_number = finite_block tx.block_number;
          position = position_or_unavailable env.now_ms position;
        }),
        db',
        cache,
      )

  unfoldable pub settle : Database → PositionCache → Text → Text → Transaction → Verdict → Outcome
  settle db cache id tx_hash tx execution_failed =
      (err (api_error 422 tx_failed), fail_intent db id (normalize_tx_hash tx.hash), cache)
  settle db cache id tx_hash tx mismatch = (err (api_error 422 tx_mismatch), db, cache)
  settle db cache id tx_hash tx matched =
      let (db', changes) = confirm_intent db id (confirmed_hash tx tx_hash) (at env.now_ms) in
      let shown = show_position db' tx in if changes == 1 then shown else (err invalid, db', cache)

  unfoldable pub after_fetch :
      Database → PositionCache → Text → Text → IntentRow → Reply (Option Transaction) → Outcome
  after_fetch db cache id tx_hash row (Rpc.failed e) = (err (to_rpc_api_error e), db, cache)
  after_fetch db cache id tx_hash row (returned none) =
      (err (record { http_status = 202; code = tx_pending; retry_after = some 5 }), db, cache)
  after_fetch db cache id tx_hash row (returned (some tx)) =
      settle db cache id tx_hash tx (judge row address tx)

  unfoldable pub after_admission : Database → PositionCache → Text → Text → Admission → Outcome
  after_admission db cache id tx_hash (refused e) = (err e, db, cache)
  after_admission db cache id tx_hash lapsed = (err not_found, expire_intent db id, cache)
  after_admission db cache id tx_hash (admitted row) =
      after_fetch (env.fetching db) cache id tx_hash row (env.fetch_tx tx_hash)

  unfoldable pub after_request : Database → PositionCache → Result Text → Result Text → Outcome
  after_request db cache (err e) _ = (err e, db, cache)
  after_request db cache (ok id) (err e) = (err e, db, cache)
  after_request db cache (ok id) (ok tx_hash) =
      after_admission db cache id tx_hash (admit (get_intent_by_id db id) address env.now_ms)

-- The warning about another delegation is a log line and is left out.
unfoldable pub confirm_staking_intent :
    ConfirmEnv → Database → PositionCache → Text → Value → Value → Outcome
unfolding after_request after_admission after_fetch settle admit judge
confirm_staking_intent env db cache user_address intent_id tx_hash =
    after_request env (normalize_address user_address) db cache (intent_id_of intent_id)
      (normalize_provider_tx_ref env.from_any tx_hash)
