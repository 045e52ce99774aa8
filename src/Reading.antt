-- ===== src/Reading.antt =====
-- server/src/stakingState.ts, the part with effects: snapshots, the position cache and
-- `readStakingPosition`. Two fields of the envelope that are always null are left out. A read runs to
-- its end in one step.
pub mod Laws
pub mod Tables
use steakout.Prelude.{
  ℕ, ◌+◌, ◌-◌, ◌*◌, ◌/◌, Text, text_eq, trim, is_empty, Bool, true, false, not, ◌&&◌, ◌||◌, Option,
  none, some, List, [], ◌∷◌, ◌++◌, ltb, leb, if◌then◌else◌, any, find, filter,
}
use steakout.Prelude.Js.{
  Num, nonfinite, minus_infinity, real, NumField, Iso, at, iso_gtb, iso_geb, is_finite,
}
use steakout.Prelude.Int.{ℤ, pos, negsuc}
use steakout.Addresses.{normalize_address, sql_address}
use steakout.Api.{ApiError, Result, ok, err}
use steakout.Rpc.{
  Reply, returned, failed, Failure, message, is_staker_not_found_error, to_rpc_api_error,
}
use steakout.Database.{Database, IntentRow, IntentStatus, SnapshotRow, ValidatorRow}
use steakout.Position.{
  PositionState, NimiqStaker, StakerBalances, no_balances, normalize_position_state,
  parse_staker_balances,
}
use steakout.Wallet.{WalletRpc, WalletBalance, read_wallet_balance_breakdown}

abbrev pub position_cache_ttl_ms : ℕ
position_cache_ttl_ms = 10000

abbrev pub snapshot_throttle_ms : ℕ
snapshot_throttle_ms = 60 * 60 * 1000

pub data EnvelopeStatus : Type 0 where
  fine stale partial unavailable : EnvelopeStatus

pub data PositionSource : Type 0 where
  from_rpc from_cache : PositionSource

pub record Envelope : Type 0 where
  pub updated_at : ℕ
  pub source : PositionSource
  pub status : EnvelopeStatus
  pub age_seconds : ℕ
  pub state : PositionState
  pub wallet : WalletBalance
  pub staker : StakerBalances
  pub validator_name : Option Text

pub record CacheEntry : Type 0 where
  pub envelope : Envelope
  pub expires_at : ℕ

-- `positionCache`, a map from addresses; the last entry set for a key stands first.
abbrev pub PositionCache : Type 0
PositionCache = List (Text × CacheEntry)

unfoldable pub cache_get : Text → PositionCache → Option CacheEntry
cache_get key [] = none
cache_get key ((k, e) ∷ cache) = if text_eq k key then some e else cache_get key cache

-- A blank name counts as none.
unfoldable pub shown_name : Option ValidatorRow → Option Text
shown_name none = none
shown_name (some row) = elim row.name [
  | none ↦ none
  | some name ↦ if is_empty (trim name) then none else some name
]

unfoldable pub resolve_validator_name : Database → Option Text → Option Text
unfolding shown_name
resolve_validator_name db none = none
resolve_validator_name db (some delegation) =
    if is_empty (trim delegation)
    then none
    else shown_name (
        find (λ row. text_eq (sql_address row.address) (normalize_address delegation))
          db.validators)

abbrev pub is_pending : IntentStatus → Bool
is_pending IntentStatus.pending = true
is_pending _ = false

-- The rows of a user, by the comparison of the statements.
unfoldable pub is_owned_by : Text → IntentRow → Bool
is_owned_by address row = text_eq (sql_address row.user_address) address

unfoldable pub has_pending_staking_intent : Database → Text → ℕ → Bool
unfolding is_owned_by
has_pending_staking_intent db address now_ms =
    any
      (λ row.
        is_owned_by (normalize_address address) row
        && is_pending row.status
        && iso_gtb row.expires_at now_ms)
      db.staking_intents

unfoldable pub is_recent_for : Text → ℕ → SnapshotRow → Bool
is_recent_for user now_ms row =
    text_eq (sql_address row.user_address) user
    && iso_geb row.observed_at (now_ms - snapshot_throttle_ms)

-- The row that a call inserts, made from its parameters.
unfoldable pub stamped : SnapshotRow → ℕ → SnapshotRow
stamped row now_ms = record row {
  user_address = normalize_address row.user_address;
  observed_at = at now_ms;
}

unfoldable pub maybe_write_staker_snapshot : Database → SnapshotRow → ℕ → Database × Bool
maybe_write_staker_snapshot db row now_ms =
    if any (is_recent_for (normalize_address row.user_address) now_ms) db.staker_snapshots
    then (db, false)
    else (record db { staker_snapshots = db.staker_snapshots ++ stamped row now_ms ∷ [] }, true)

pub record PositionRpc : Type 0 where
  pub wallet : WalletRpc
  pub get_staker : Text → Reply NimiqStaker
  pub get_block : Reply NumField

pub record ReadOptions : Type 0 where
  pub address : Text
  pub now_ms : ℕ
  pub has_pending_tx : Option Bool
  pub bypass_cache : Bool
  pub skip_htlc_scan : Bool

-- A hit within its time to live, with its age; `none` is a miss.
unfoldable pub cached_position : PositionCache → Text → ℕ → Option Envelope
unfolding cache_get
cached_position cache key now_ms = elim (cache_get key cache) [
  | none ↦ none
  | some entry ↦
      let age = (now_ms - entry.envelope.updated_at) / 1000 in
      let envelope = entry.envelope in
      let status = if ltb (position_cache_ttl_ms / 1000) age then stale else envelope.status in
      if ltb now_ms entry.expires_at
      then some (record envelope { source = from_cache; status = status; age_seconds = age })
      else none
]

-- `Number.isInteger(block) && block >= 0`
unfoldable pub block_height : Reply NumField → Option ℕ
block_height (returned (some (real (pos n) true))) = some n
block_height _ = none

-- No staker at the address is an answer; any other failure ends the read.
unfoldable pub read_staker : Reply NimiqStaker → Result (Option NimiqStaker)
read_staker (returned staker) = ok (some staker)
read_staker (failed e) =
    if is_staker_not_found_error (message e) then ok none else err (to_rpc_api_error e)

-- A snapshot of the balances shown; skipped when the block is not known.
unfoldable pub write_snapshot : Database → Text → StakerBalances → ℕ → Option ℕ → Database
write_snapshot db address b now_ms none = db
write_snapshot db address b now_ms (some block) =
    (maybe_write_staker_snapshot db
      (record {
        user_address = address;
        validator_address = elim b.delegation [ none ↦ none | some d ↦ some (normalize_address d) ];
        active_balance_luna = b.active_luna;
        inactive_balance_luna = b.inactive_luna;
        retired_balance_luna = b.retired_luna;
        total_balance_luna = b.total_luna;
        observed_at = at now_ms;
        source_block = block;
      })
      now_ms).0

abbrev pub is_positive : NumField → Bool
is_positive none = false
is_positive (some nonfinite) = false
is_positive (some minus_infinity) = false
is_positive (some (real (negsuc n) exact)) = false
is_positive (some (real (pos n) exact)) = not (leb n 0 && exact)

abbrev pub staker_balance : Option NimiqStaker → NumField
staker_balance none = none
staker_balance (some s) = s.balance

abbrev pub is_active : PositionState → Bool
is_active PositionState.active = true
is_active _ = false

-- The guard against showing garbage as active.
unfoldable pub is_garbage_active : PositionState → Option NimiqStaker → Bool
is_garbage_active state staker = is_active state && not (is_positive (staker_balance staker))

abbrev pub account_status : WalletBalance → EnvelopeStatus
account_status w = elim w.account_balance_luna [ none ↦ partial | some n ↦ fine ]

abbrev pub unavailable_envelope : ℕ → WalletBalance → StakerBalances → Envelope
unavailable_envelope now_ms wallet b = record {
  updated_at = now_ms;
  source = from_rpc;
  status = unavailable;
  age_seconds = 0;
  state = PositionState.not_staked;
  wallet = wallet;
  staker = b;
  validator_name = none;
}

-- What the read returns once the staker is known, and whether it is complete: an incomplete
-- position is neither recorded nor cached.
unfoldable pub position_of :
    Database → ℕ → WalletBalance → Bool → Option NimiqStaker → Envelope × Bool
unfolding is_garbage_active resolve_validator_name
position_of db now_ms wallet pending staker = elim (parse_staker_balances staker) [
  | none ↦ (unavailable_envelope now_ms wallet no_balances, false)
  | some b ↦
      let state = normalize_position_state staker pending in
      if is_garbage_active state staker then (unavailable_envelope now_ms wallet b, false) else (
        record {
          updated_at = now_ms;
          source = from_rpc;
          status = account_status wallet;
          age_seconds = 0;
          state = state;
          wallet = wallet;
          staker = b;
          validator_name = resolve_validator_name db b.delegation;
        },
        true,
      )
]

-- The end of the read: the snapshot and the cache.
unfoldable pub record_position :
    Database
    → PositionCache
    → ReadOptions
    → Reply NumField
    → Envelope × Bool
    → Result Envelope × Database × PositionCache
unfolding write_snapshot maybe_write_staker_snapshot block_height
record_position db cache o block (envelope, false) = (ok envelope, db, cache)
record_position db cache o block (envelope, true) =
    let entry : CacheEntry = record {
      envelope = envelope;
      expires_at = o.now_ms + position_cache_ttl_ms;
    } in
    let address = normalize_address o.address in
    (
      ok envelope,
      write_snapshot db address envelope.staker o.now_ms (block_height block),
      if o.bypass_cache then cache else (address, entry) ∷ cache,
    )

unfoldable pub pending_tx : Database → ReadOptions → Bool
unfolding has_pending_staking_intent
pending_tx db o = elim o.has_pending_tx [
  | none ↦ has_pending_staking_intent db o.address o.now_ms
  | some p ↦ p
]

abbrev pub cache_lookup : PositionCache → ReadOptions → Option Envelope
cache_lookup cache o =
    if o.bypass_cache then none else cached_position cache (normalize_address o.address) o.now_ms

-- What follows the staker call.
unfoldable pub after_staker :
    PositionRpc
    → Database
    → PositionCache
    → ReadOptions
    → Result (Option NimiqStaker)
    → Result Envelope × Database × PositionCache
after_staker rpc db cache o (err e) = (err e, db, cache)
after_staker rpc db cache o (ok staker) =
    let address = normalize_address o.address in
    let wallet = read_wallet_balance_breakdown rpc.wallet address o.skip_htlc_scan none in
    record_position db cache o rpc.get_block
      (position_of db o.now_ms wallet (pending_tx db o) staker)

-- What follows the look in the cache.
unfoldable pub after_lookup :
    PositionRpc
    → Database
    → PositionCache
    → ReadOptions
    → Option Envelope
    → Result Envelope × Database × PositionCache
after_lookup rpc db cache o (some envelope) = (ok envelope, db, cache)
after_lookup rpc db cache o none =
    after_staker rpc db cache o (read_staker (rpc.get_staker (normalize_address o.address)))

unfoldable pub read_staking_position :
    PositionRpc
    → Database
    → PositionCache
    → ReadOptions
    → Result Envelope × Database × PositionCache
unfolding after_lookup after_staker
read_staking_position rpc db cache o = after_lookup rpc db cache o (cache_lookup cache o)
