-- ===== src/Indexer.antt =====
-- server/src/payoutIndexer.ts: transactions as the node gives them and as they are stored, and what is
-- kept of one page of them, which is newest first. Address is the walk over an address's pages.
pub mod Address
pub mod Table
pub mod Walk
pub mod Laws
use steakout.Prelude.{
  ℕ, zero, suc, ◌+◌, ◌-◌, ◌*◌, ◌^◌, Text, text, text_eq, trim, is_empty, Bool, true, false, not,
  ◌&&◌, ◌||◌, Option, none, some, List, [], ◌∷◌, ◌++◌, any, length, find, ltb, leb, ◌==◌,
  if◌then◌else◌,
}
use steakout.Prelude.Int.{pos}
use steakout.Prelude.Js.{real}
use steakout.Json.{Value, number, absent, null}
use steakout.Rpc.{Failure, error, Reply, returned, failed}

-- The fields of a `NimiqTransaction` that are read here.
pub record ChainTransaction : Type 0 where
  pub hash : Text
  pub from : Text
  pub to : Text
  pub value : Value
  pub fee : Value
  pub block_number : Value
  pub validity_start_height : Value
  pub timestamp : Value
  pub execution_result : Bool

-- A row of `transactions`. A timestamp is its milliseconds; the text of the whole transaction, which is
-- written and not read, is left out.
pub record NormalizedTransaction : Type 0 where
  pub hash : Text
  pub from_address : Text
  pub to_address : Text
  pub value_luna : ℕ
  pub fee_luna : ℕ
  pub block_number : ℕ
  pub timestamp : ℕ
  pub is_ok : Bool

pub record IndexCursor : Type 0 where
  pub source : Text
  pub address : Text
  pub last_block : ℕ
  pub last_tx_hash : Option Text

pub record IndexDb : Type 0 where
  pub transactions : List NormalizedTransaction
  pub index_cursors : List IndexCursor

unfoldable pub and_then {ℓ κ} : {A : Type ℓ} {B : Type κ} → Reply A → (A → Reply B) → Reply B
and_then (returned a) f = f a
and_then (failed e) f = failed e

unfoldable pub integer : Value → Text → Reply ℕ
integer (number (real (pos n) true)) field =
    if leb n (2 ^ 53 - 1)
    then returned n
    else failed (error (text "RPC transaction " ++ field ++ text " is malformed"))
integer _ field = failed (error (text "RPC transaction " ++ field ++ text " is malformed"))

-- The largest time of a `Date`.
abbrev pub max_date_ms : ℕ
max_date_ms = 8640000000000000

abbrev pub in_ms : ℕ → ℕ
in_ms t = if ltb t 1000000000000 then t * 1000 else t

unfoldable pub transaction_timestamp : Value → Reply ℕ
unfolding and_then integer
transaction_timestamp value = and_then (integer value (text "timestamp")) (λ t.
    if leb (in_ms t) max_date_ms
    then returned (in_ms t)
    else failed (error (text "RPC transaction timestamp is malformed")))

-- `transaction.blockNumber ?? transaction.validityStartHeight`
abbrev pub or_else : Value → Value → Value
or_else absent other = other
or_else null other = other
or_else v other = v

unfoldable pub normalize_transaction : ChainTransaction → Reply NormalizedTransaction
unfolding and_then integer transaction_timestamp
normalize_transaction t =
    let fields = and_then (integer t.value (text "value")) (λ value.
      and_then (integer t.fee (text "fee")) (λ fee.
        and_then (integer (or_else t.block_number t.validity_start_height) (text "blockNumber"))
          (λ block. and_then (transaction_timestamp t.timestamp) (λ time. returned (record {
            hash = trim t.hash;
            from_address = trim t.from;
            to_address = trim t.to;
            value_luna = value;
            fee_luna = fee;
            block_number = block;
            timestamp = time;
            is_ok = t.execution_result;
          }))))) in
    if is_empty (trim t.hash) || is_empty (trim t.from) || is_empty (trim t.to)
    then failed (error (text "RPC transaction address or hash is empty"))
    else fields

unfoldable pub normalize_page : List ChainTransaction → Reply (List NormalizedTransaction)
unfolding and_then normalize_transaction
normalize_page [] = returned []
normalize_page (t ∷ ts) =
    and_then (normalize_transaction t) (λ n. and_then (normalize_page ts) (λ ns. returned (n ∷ ns)))

-- No hash is kept for the last block: every transaction of that block is reached.
abbrev pub is_last : Text → Option Text → Bool
is_last hash none = true
is_last hash (some h) = text_eq hash h

unfoldable pub cursor_reached : NormalizedTransaction → IndexCursor → Bool
cursor_reached t cursor =
    ltb t.block_number cursor.last_block
    || (t.block_number == cursor.last_block && is_last t.hash cursor.last_tx_hash)

-- `<` on the texts of two dates: from the year 10000 on a text begins with `+`.
abbrev pub is_expanded : ℕ → Bool
is_expanded ms = leb 253402300800000 ms

unfoldable pub is_older : ℕ → ℕ → Bool
is_older a b =
    if is_expanded a
    then (if is_expanded b then ltb a b else true)
    else (if is_expanded b then false else ltb a b)

-- What a walk stops at.
pub record Floor : Type 0 where
  pub block : ℕ
  pub time : Option ℕ
  pub cursor : Option IndexCursor

abbrev pub under_time : ℕ → Option ℕ → Bool
under_time t none = false
under_time t (some time) = is_older t time

abbrev pub at_cursor : NormalizedTransaction → Option IndexCursor → Bool
at_cursor t none = false
at_cursor t (some cursor) = cursor_reached t cursor

-- The transactions of a page that are kept, and whether the cursor or a floor was reached. The cursor
-- counts on the first page only.
pub record Scan : Type 0 where
  pub kept : List NormalizedTransaction
  pub boundary : Bool
  pub floor : Bool

unfoldable pub scan_page : Floor → Bool → List NormalizedTransaction → Scan
unfolding cursor_reached is_older
scan_page floor first [] = record { kept = []; boundary = false; floor = false }
scan_page floor first (t ∷ ts) =
    let rest = scan_page floor first ts in
    if ltb t.block_number floor.block || under_time t.timestamp floor.time
    then record { kept = []; boundary = false; floor = true }
    else if first && at_cursor t floor.cursor
    then record { kept = []; boundary = true; floor = false }
    else record rest { kept = t ∷ rest.kept }

-- The variables of the loop over the pages.
pub record WalkState : Type 0 where
  pub kept : List NormalizedTransaction
  pub newest : Option NormalizedTransaction
  pub start_at : Option Text
  pub seen : List Text
  pub pages : ℕ
  pub fetched : ℕ

abbrev pub walk_start : WalkState
walk_start = record { kept = []; newest = none; start_at = none; seen = []; pages = 0; fetched = 0 }

abbrev pub is_none {ℓ} : {A : Type ℓ} → Option A → Bool
is_none none = true
is_none (some a) = false

abbrev pub first_of : List NormalizedTransaction → Option NormalizedTransaction
first_of [] = none
first_of (t ∷ ts) = some t

abbrev pub is_nil : List NormalizedTransaction → Bool
is_nil [] = true
is_nil (t ∷ ts) = false

abbrev pub last_hash : NormalizedTransaction → List NormalizedTransaction → Text
last_hash t [] = t.hash
last_hash t (u ∷ us) = last_hash u us

unfoldable pub keep_scan : Scan → WalkState → WalkState
keep_scan scan st = record st {
  kept = st.kept ++ scan.kept;
  newest = if is_none st.start_at && not (is_nil scan.kept) then first_of scan.kept else st.newest;
}

-- The start of the next page, if the walk goes on.
unfoldable pub next_start : Floor → Scan → WalkState → Text → Option Text
next_start floor scan st hash =
    if scan.floor || scan.boundary
    then none
    else if any (λ h. text_eq h hash) st.seen
    then none
    else if is_nil scan.kept && not (is_none floor.time)
    then none
    else some hash
