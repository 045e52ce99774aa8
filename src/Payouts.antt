-- ===== src/Payouts.antt =====
-- server/src/payoutClassifier.ts: the grouping of a reward address's transactions into payout runs.
pub mod Order
pub mod Persist
pub mod Runs
pub mod Sorting
use steakout.Prelude.{
  ℕ, zero, suc, ◌+◌, ◌-◌, ◌*◌, min, max, Text, text_eq, Bool, true, false, ◌&&◌, ◌||◌, Option, none,
  some, List, [], ◌∷◌, ◌++◌, map, ltb, leb, ◌==◌, if◌then◌else◌, filter, length,
}
use steakout.Prelude.Js.{Iso, at, malformed, parse_date}
use Order.{text_leb, sort, distinct}

abbrev pub default_run_window_minutes : ℕ
default_run_window_minutes = 60

abbrev pub calc_version : ℕ
calc_version = 2

pub data ExecutionResult : Type 0 where
  succeeded failed reverted : ExecutionResult

pub record PayoutTransaction : Type 0 where
  pub hash : Text
  pub to_address : Text
  pub value_luna : ℕ
  pub block_number : ℕ
  pub timestamp : Iso
  pub execution_result : ExecutionResult

pub record PayoutRun : Type 0 where
  pub started_at : Iso
  pub ended_at : Iso
  pub tx_count : ℕ
  pub recipient_count : ℕ
  pub recipients : List Text
  pub first_block : ℕ
  pub last_block : ℕ
  pub first_tx_hash : Text
  pub last_tx_hash : Text
  pub tx_hashes : List Text
  pub total_value_luna : ℕ

-- A transaction with its time in milliseconds.
pub record Entry : Type 0 where
  pub transaction : PayoutTransaction
  pub time : ℕ

abbrev pub is_ok_result : ExecutionResult → Bool
is_ok_result succeeded = true
is_ok_result _ = false

abbrev pub executed : PayoutTransaction → Bool
executed tx = is_ok_result tx.execution_result

-- `none` is the error on a malformed timestamp.
unfoldable pub timed : List PayoutTransaction → Option (List Entry)
timed [] = some []
timed (tx ∷ txs) = elim (parse_date tx.timestamp) [
  | none ↦ none
  | some ms ↦ elim (timed txs) [
    | none ↦ none
    | some rest ↦ some (record { transaction = tx; time = ms } ∷ rest)
  ]
]

-- By time, then by hash.
unfoldable pub entry_leb : Entry → Entry → Bool
unfolding text_leb
entry_leb a b =
    ltb a.time b.time || (a.time == b.time && text_leb a.transaction.hash b.transaction.hash)

abbrev pub last_entry : Entry → List Entry → Entry
last_entry e [] = e
last_entry e (x ∷ xs) = last_entry x xs

abbrev pub sum_value : List Entry → ℕ
sum_value [] = 0
sum_value (e ∷ es) = e.transaction.value_luna + sum_value es

abbrev pub min_block : ℕ → List Entry → ℕ
min_block n [] = n
min_block n (e ∷ es) = min_block (min n e.transaction.block_number) es

abbrev pub max_block : ℕ → List Entry → ℕ
max_block n [] = n
max_block n (e ∷ es) = max_block (max n e.transaction.block_number) es

-- The run that `flush` makes of the entries `first ∷ rest`.
unfoldable pub run_of : Entry → List Entry → PayoutRun
unfolding sort distinct
run_of first rest =
    let all_entries = first ∷ rest in
    let last = last_entry first rest in
    let recipients =
      sort text_leb (distinct (map (λ (e : Entry). e.transaction.to_address) all_entries)) in
    record {
      started_at = at first.time;
      ended_at = at last.time;
      tx_count = length all_entries;
      recipient_count = length recipients;
      recipients = recipients;
      first_block = min_block first.transaction.block_number rest;
      last_block = max_block first.transaction.block_number rest;
      first_tx_hash = first.transaction.hash;
      last_tx_hash = last.transaction.hash;
      tx_hashes = map (λ (e : Entry). e.transaction.hash) all_entries;
      total_value_luna = sum_value all_entries;
    }

unfoldable pub flush : List PayoutRun → List Entry → List PayoutRun
unfolding run_of
flush runs [] = runs
flush runs (first ∷ rest) = runs ++ run_of first rest ∷ []

-- Whether the gap to the last entry of the current run is too long.
unfoldable pub is_gap : ℕ → List Entry → Entry → Bool
is_gap window_ms [] e = false
is_gap window_ms (first ∷ rest) e = ltb window_ms (e.time - (last_entry first rest).time)

-- The loop over the ordered entries, with its two variables.
unfoldable pub group_from : ℕ → List PayoutRun → List Entry → List Entry → List PayoutRun
unfolding flush is_gap
group_from window_ms runs current [] = flush runs current
group_from window_ms runs current (e ∷ es) =
    if is_gap window_ms current e
    then group_from window_ms (flush runs current) (e ∷ []) es
    else group_from window_ms runs (current ++ e ∷ []) es

unfoldable pub window_ms_of : ℕ → ℕ
window_ms_of window_minutes = max 1 window_minutes * 60000

unfoldable pub group_payout_runs : List PayoutTransaction → ℕ → Option (List PayoutRun)
unfolding timed group_from
group_payout_runs transactions window_minutes = elim (timed (filter executed transactions)) [
  | none ↦ none
  | some entries ↦ some (group_from (window_ms_of window_minutes) [] [] (sort entry_leb entries))
]
