-- ===== src/Wallet/Laws.antt =====
-- sumOpenHtlcBalanceAsSender (server/src/walletBalance.ts): its batches and its sums.
use steakout.Prelude.{
  ℕ, zero, suc, ◌+◌, ◌≤◌, ◌≡◌, refl, sym, ap, ◌∙◌, ◌&&◌, Text, List, [], ◌∷◌, ◌++◌, arith, length,
  take, drop, length-drop, take-append-drop, if◌then◌else◌,
}
use steakout.Rpc.{Account, Transaction, Reply, returned, failed}
use steakout.Wallet.{
  WalletRpc, HtlcScan, no_htlc, candidates, count_account, count_accounts, count_batches,
  scan_transactions, is_htlc_account, account_sender, sent_by,
}
use steakout.Position.{luna_of}

module _ (rpc : WalletRpc) (user : Text) where
  count_accounts-append :
      (scan : HtlcScan) (xs ys : List Text)
      → count_accounts rpc user scan (xs ++ ys)
        ≡ count_accounts rpc user (count_accounts rpc user scan xs) ys
  unfolding count_accounts
  count_accounts-append scan [] ys = refl
  count_accounts-append scan (x ∷ xs) ys =
      count_accounts-append (count_account user scan (rpc.get_account x)) xs ys

  -- With a round for each address the batches visit every address once, in order.
  pub count_batches-eq-accounts :
      (fuel : ℕ) (scan : HtlcScan) (addresses : List Text)
      → length addresses ≤ fuel
      → count_batches rpc user fuel scan addresses ≡ count_accounts rpc user scan addresses
  unfolding count_batches count_accounts
  count_batches-eq-accounts zero scan [] h = refl
  count_batches-eq-accounts zero scan (a ∷ as') h = absurd (omega arith)
  count_batches-eq-accounts (suc fuel) scan [] h = refl
  count_batches-eq-accounts (suc fuel) scan (a ∷ as') h =
      count_batches-eq-accounts fuel (count_accounts rpc user scan (take 4 (a ∷ as')))
        (drop 4 (a ∷ as')) (omega (arith, length-drop 3 as'))
      ∙ sym (count_accounts-append scan (take 4 (a ∷ as')) (drop 4 (a ∷ as')))
      ∙ ap (count_accounts rpc user scan) (take-append-drop 4 (a ∷ as'))

  -- What an account may add: its whole Luna if it is a contract that the user funded.
  abbrev pub funded : Reply Account → ℕ
  funded (failed e) = 0
  funded (returned account) =
      if is_htlc_account account && sent_by user (account_sender account)
      then luna_of account.balance
      else 0

  abbrev pub sum_funded : List Text → ℕ
  sum_funded [] = 0
  sum_funded (a ∷ as') = funded (rpc.get_account a) + sum_funded as'

  count_account-le :
      (scan : HtlcScan) (reply : Reply Account)
      → ((count_account user scan reply).htlc_balance_luna ≤ scan.htlc_balance_luna + funded reply)
        × ((count_account user scan reply).htlc_count ≤ scan.htlc_count + 1)
  unfolding count_account
  count_account-le scan (failed e) = omega arith
  count_account-le scan (returned account) = ground arith

  count_accounts-le :
      (scan : HtlcScan) (xs : List Text)
      → ((count_accounts rpc user scan xs).htlc_balance_luna
          ≤ scan.htlc_balance_luna + sum_funded xs)
        × ((count_accounts rpc user scan xs).htlc_count ≤ scan.htlc_count + length xs)
  unfolding count_accounts
  count_accounts-le scan [] = omega arith
  count_accounts-le scan (x ∷ xs) = omega (
    arith,
    count_account-le scan (rpc.get_account x),
    count_accounts-le (count_account user scan (rpc.get_account x)) xs,
  )

  -- The scan reports no more Luna than the contracts hold that were found among the recipients of
  -- the user's own successful transactions, are readable, and name the user as sender; and no more
  -- contracts than such recipients. It visits all of them, whatever the number of batches.
  pub scan_transactions_bounds :
      (txs : List Transaction)
      → let scan = scan_transactions rpc user (returned txs) in
        let found = candidates user [] txs in
        (scan ≡ count_accounts rpc user no_htlc found)
        × (scan.htlc_balance_luna ≤ sum_funded found)
        × (scan.htlc_count ≤ length found)
  unfolding scan_transactions
  scan_transactions_bounds txs =
      let found = candidates user [] txs in
      let all_visited = count_batches-eq-accounts (length found) no_htlc found (omega arith) in
      (
        all_visited,
        rw all_visited (omega (arith, count_accounts-le no_htlc found)),
        rw all_visited (omega (arith, count_accounts-le no_htlc found)),
      )
