-- ===== src/Wallet.antt =====
-- server/src/walletBalance.ts: the free balance of an account, and the open payment contracts (HTLC)
-- that it funded.
pub mod Laws
use steakout.Prelude.{
  ℕ, zero, suc, ◌+◌, ◌<◌, min, max, Text, text, text_eq, trim, is_empty, Bool, true, false, not,
  ◌||◌, Option, none, some, List, [], ◌∷◌, ◌++◌, map, ltb, if◌then◌else◌, any, length, take, drop,
}
use steakout.Prelude.Js.{Num, NumField, is_finite}
use steakout.Addresses.{normalize_address}
use steakout.Position.{non_neg_int, luna_of}
use steakout.Rpc.{Account, Transaction, Reply, returned, failed, to_lower}

-- The two calls that a wallet read makes.
pub record WalletRpc : Type 0 where
  pub get_account : Text → Reply Account
  pub get_transactions : Text → ℕ → Reply (List Transaction)

abbrev pub htlc_scan_tx_max : ℕ
htlc_scan_tx_max = 40

abbrev pub htlc_lookup_concurrency : ℕ
htlc_lookup_concurrency = 4

unfoldable pub has_text : Text → List Text → Bool
has_text t xs = any (text_eq t) xs

-- `set.add(t)`; a set keeps the order of insertion.
unfoldable pub add_text : Text → List Text → List Text
unfolding has_text
add_text t xs = if has_text t xs then xs else xs ++ t ∷ []

-- One round of the scan of the transactions.
unfoldable pub add_candidate : Text → List Text → Transaction → List Text
add_candidate user found tx =
    if not tx.execution_result
    then found
    else if not (text_eq (normalize_address tx.from) user)
    then found
    else if text_eq (normalize_address tx.to) user
    then found
    else add_text (normalize_address tx.to) found

unfoldable pub candidates : Text → List Text → List Transaction → List Text
candidates user found [] = found
candidates user found (tx ∷ txs) = candidates user (add_candidate user found tx) txs

pub record HtlcScan : Type 0 where
  pub htlc_balance_luna : ℕ
  pub htlc_count : ℕ
  pub seen : List Text

abbrev pub no_htlc : HtlcScan
no_htlc = record { htlc_balance_luna = 0; htlc_count = 0; seen = [] }

unfoldable pub is_htlc_account : Account → Bool
is_htlc_account account = text_eq (map to_lower account.account_type) (text "htlc")

unfoldable pub account_sender : Account → Option Text
account_sender account = elim account.sender [
  | none ↦ none
  | some raw ↦ if is_empty (trim raw) then none else some raw
]

unfoldable pub sent_by : Text → Option Text → Bool
sent_by user none = false
sent_by user (some sender) = text_eq (normalize_address sender) user

-- The body of the loop over the accounts of a batch. A failed read is skipped.
unfoldable pub count_account : Text → HtlcScan → Reply Account → HtlcScan
unfolding luna_of
count_account user scan (failed e) = scan
count_account user scan (returned account) =
    let key = normalize_address account.address in
    let fresh : HtlcScan = record scan { seen = add_text key scan.seen } in
    let bal = luna_of account.balance in
    if not (is_htlc_account account)
    then scan
    else if not (sent_by user (account_sender account))
    then scan
    else if has_text key scan.seen
    then scan
    else if not (ltb 0 bal)
    then fresh
    else record fresh {
      htlc_balance_luna = scan.htlc_balance_luna + bal;
      htlc_count = scan.htlc_count + 1;
    }

module _ (rpc : WalletRpc) (user : Text) where
  -- The accounts of one batch, in order.
  unfoldable pub count_accounts : HtlcScan → List Text → HtlcScan
  count_accounts scan [] = scan
  count_accounts scan (a ∷ as') = count_accounts (count_account user scan (rpc.get_account a)) as'

  -- `for (i = 0; i < addresses.length; i += 4)`; the fuel bounds the rounds.
  unfoldable pub count_batches : ℕ → HtlcScan → List Text → HtlcScan
  count_batches zero scan addresses = scan
  count_batches (suc fuel) scan [] = scan
  count_batches (suc fuel) scan (a ∷ as') =
      count_batches fuel (count_accounts scan (take htlc_lookup_concurrency (a ∷ as')))
        (drop htlc_lookup_concurrency (a ∷ as'))

  unfoldable pub scan_transactions : Reply (List Transaction) → HtlcScan
  scan_transactions (failed e) = no_htlc
  scan_transactions (returned txs) =
      let found = candidates user [] txs in count_batches (length found) no_htlc found

-- `Math.min(Math.max(1, maxTxs ?? 40), 100)`
unfoldable pub scan_limit : Option ℕ → ℕ
scan_limit none = min (max 1 htlc_scan_tx_max) 100
scan_limit (some n) = min (max 1 n) 100

unfoldable pub sum_open_htlc_balance_as_sender : WalletRpc → Text → Option ℕ → HtlcScan
sum_open_htlc_balance_as_sender rpc address max_txs =
    let user = normalize_address address in
    scan_transactions rpc user (rpc.get_transactions user (scan_limit max_txs))

pub record WalletBalance : Type 0 where
  pub account_balance_luna : Option ℕ
  pub htlc_balance_luna : ℕ
  pub wallet_balance_luna : Option ℕ
  pub htlc_count : ℕ

unfoldable pub read_balance : Reply Account → Option ℕ
unfolding non_neg_int
read_balance (failed e) = none
read_balance (returned account) = elim account.balance [
  | none ↦ none
  | some n ↦ if is_finite n then some (non_neg_int n) else none
]

unfoldable pub wallet_total : Option ℕ → ℕ → Option ℕ
wallet_total none htlc = none
wallet_total (some free) htlc = some (free + htlc)

unfoldable pub read_wallet_balance_breakdown : WalletRpc → Text → Bool → Option ℕ → WalletBalance
unfolding wallet_total
read_wallet_balance_breakdown rpc address skip max_txs =
    let user = normalize_address address in
    let free = read_balance (rpc.get_account user) in
    let htlc : HtlcScan =
      if skip then no_htlc else sum_open_htlc_balance_as_sender rpc user max_txs in
    record {
      account_balance_luna = free;
      htlc_balance_luna = htlc.htlc_balance_luna;
      wallet_balance_luna = wallet_total free htlc.htlc_balance_luna;
      htlc_count = htlc.htlc_count;
    }
