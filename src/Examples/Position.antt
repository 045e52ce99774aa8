-- ===== src/Examples/Position.antt =====
-- A position of seventy Luna, its cache, its wallet, and an address in two spellings.
use steakout.Prelude.{
  ℕ, ◌≡◌, ◌≢◌, ◌↔◌, ◌≤◌, ◌<◌, ◌-◌, ◌/◌, refl, Text, text, true, false, none, some, List, [], ◌∷◌,
  arith, length, ◌⊎◌,
}
use steakout.Prelude.Js.{int, at, nonfinite}
use steakout.Addresses.{normalize_address}
use steakout.Api.{ok, err, api_error, rpc_unavailable}
use steakout.Rpc.{returned, failed, error, Account}
use steakout.Database.{SnapshotRow}
use steakout.Position.{
  NimiqStaker, StakerBalances, no_balances, active, normalize_position_state, parse_staker_balances,
  luna_of,
}
use steakout.Position.Table.{Row, normalize_position_state-table}
use steakout.Reading.{
  Envelope, CacheEntry, PositionCache, PositionRpc, ReadOptions, from_cache, cached_position,
  cache_get, read_staking_position, is_garbage_active, maybe_write_staker_snapshot, pending_tx,
  unavailable_envelope,
}
use steakout.Reading.Laws.{
  IsTimed, cache_hit_not_stale, read_staking_position-IsTimed, read_active_sound,
}
use steakout.Wallet.{WalletRpc, scan_transactions, candidates, count_accounts, no_htlc}
use steakout.Wallet.Laws.{sum_funded, scan_transactions_bounds}
use steakout.Examples.Data.{
  alice, alice_normal, alice_staker, stake_tx, empty_db, node, silent_wallet, or_else,
}

abbrev seventy : StakerBalances
seventy = record no_balances { active_luna = 70; total_luna = 70 }

readable : parse_staker_balances (some alice_staker) ≡ some seventy
unfolding parse_staker_balances
readable = refl

normalize_position_state-table_example :
    (normalize_position_state (some alice_staker) false ≡ active) ↔ Row active 70 0 0
normalize_position_state-table_example =
    normalize_position_state-table alice_staker seventy active readable

abbrev garbage : NimiqStaker
garbage = record alice_staker { balance = some nonfinite }

unreadable : parse_staker_balances (some garbage) ≡ none
unfolding parse_staker_balances
unreadable = refl

abbrev snapshot : SnapshotRow
snapshot = record {
  user_address = alice;
  validator_address = none;
  active_balance_luna = 70;
  inactive_balance_luna = 0;
  retired_balance_luna = 0;
  total_balance_luna = 70;
  observed_at = at 0;
  source_block = 1;
}

written : (maybe_write_staker_snapshot empty_db snapshot 5000).1 ≡ true
unfolding maybe_write_staker_snapshot
written = refl

abbrev past_cache : ReadOptions
past_cache = record {
  address = alice;
  now_ms = 1000;
  has_pending_tx = some false;
  bypass_cache = true;
  skip_htlc_scan = true;
}

abbrev shown : Envelope
unfolding read_staking_position
shown = or_else (read_staking_position node empty_db [] past_cache).0 (
    unavailable_envelope 0
      (record {
        account_balance_luna = none;
        htlc_balance_luna = 0;
        wallet_balance_luna = none;
        htlc_count = 0;
      })
      no_balances)

was_read : (read_staking_position node empty_db [] past_cache).0 ≡ ok shown
unfolding read_staking_position steakout.Reading.read_staker steakout.Reading.record_position
    steakout.Reading.position_of parse_staker_balances normalize_position_state pending_tx
was_read = refl

shown_active : shown.state ≡ active
unfolding read_staking_position steakout.Reading.read_staker steakout.Reading.record_position
    steakout.Reading.position_of parse_staker_balances normalize_position_state pending_tx
shown_active = refl

read_active_sound_example :
    (s : NimiqStaker) × (pending_tx empty_db past_cache ≡ false)
    × (node.get_staker (normalize_address alice) ≡ returned s)
    × (0 < luna_of s.balance)
    × (luna_of s.retired_balance ≡ 0)
read_active_sound_example =
    read_active_sound node empty_db [] past_cache shown refl was_read shown_active

abbrev entry : CacheEntry
entry = record { envelope = record shown { updated_at = 1000 }; expires_at = 11000 }

abbrev one_entry : PositionCache
one_entry = (alice_normal, entry) ∷ []

in_cache : cache_get alice_normal one_entry ≡ some entry
unfolding cache_get steakout.Prelude.text_eq
in_cache = refl

cache_hit_not_stale_example :
    cached_position one_entry alice_normal 9000
    ≡ some (record entry.envelope { source = from_cache; age_seconds = (9000 - 1000) / 1000 })
cache_hit_not_stale_example =
    cache_hit_not_stale one_entry alice_normal 9000 entry (refl, tt) in_cache (omega arith)

read_staking_position-IsTimed_example :
    IsTimed (read_staking_position node empty_db one_entry past_cache).2
read_staking_position-IsTimed_example =
    read_staking_position-IsTimed node empty_db one_entry past_cache (refl, tt)

abbrev down : PositionRpc
down = record node { get_staker = λ a. failed (error (text "down")) }

read_fails :
    (read_staking_position down empty_db one_entry past_cache).0
    ≡ err (api_error 503 rpc_unavailable)
unfolding read_staking_position steakout.Reading.read_staker steakout.Rpc.is_staker_not_found_error
    steakout.Rpc.to_rpc_api_error
read_fails = refl

abbrev contract : Account
contract = record {
  address = text "NQ77";
  balance = some (int 5);
  account_type = text "htlc";
  sender = some alice;
}

abbrev contract_wallet : WalletRpc
contract_wallet = record silent_wallet { get_account = λ a. returned contract }

scan_transactions_bounds_example :
    let scan = scan_transactions contract_wallet alice_normal (returned (stake_tx ∷ [])) in
    let found = candidates alice_normal [] (stake_tx ∷ []) in
    (scan ≡ count_accounts contract_wallet alice_normal no_htlc found)
    × (scan.htlc_balance_luna ≤ sum_funded contract_wallet alice_normal found)
    × (scan.htlc_count ≤ length found)
scan_transactions_bounds_example =
    scan_transactions_bounds contract_wallet alice_normal (stake_tx ∷ [])
