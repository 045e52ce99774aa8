-- ===== src/Indexer/Address.antt =====
-- `runAddress` of server/src/payoutIndexer.ts up to the ingest: the walk over the pages of an address,
-- and the commit of what it kept. What follows, the classification of observations, is not part of it.
-- A fetch is a function of the network's state, with its retries.
use steakout.Prelude.{
  ℕ, zero, suc, ◌+◌, ◌-◌, ◌*◌, Text, text_eq, Bool, ◌&&◌, Option, none, some, List, [], ◌∷◌, ◌++◌,
  any, length, find, ◌==◌, if◌then◌else◌,
}
use steakout.Rpc.{Failure, Reply, returned, failed}
use steakout.Indexer.{
  ChainTransaction, NormalizedTransaction, IndexCursor, IndexDb, Floor, WalkState, walk_start,
  is_none, last_hash, scan_page, keep_scan, next_start, normalize_page,
}

-- The outcome of a walk: `none`, or what a fetch or a transaction threw.
abbrev pub Walked : Type 0 → Type 0
Walked S = Option Failure × WalkState × S

module _ {S : Type 0} (fetch : Option Text → S → Reply (List ChainTransaction) × S)
    (floor : Floor) where
  -- The pages after this one, given the walk over them.
  unfoldable pub after_next : (WalkState → Walked S) → WalkState → S → Option Text → Walked S
  after_next walk st s none = (none, st, s)
  after_next walk st s (some hash) =
      walk (record st { start_at = some hash; seen = hash ∷ st.seen })

  unfoldable pub after_page :
      (WalkState → Walked S) → WalkState → S → Reply (List NormalizedTransaction) → Walked S
  unfolding scan_page keep_scan next_start after_next
  after_page walk st s (failed e) = (some e, st, s)
  after_page walk st s (returned []) = (none, st, s)
  after_page walk st s (returned (t ∷ ts)) =
      let scan = scan_page floor (is_none st.start_at) (t ∷ ts) in
      after_next walk (keep_scan scan st) s (next_start floor scan st (last_hash t ts))

  unfoldable pub after_fetch :
      (WalkState → Walked S) → WalkState → S → Reply (List ChainTransaction) → Walked S
  unfolding after_page normalize_page
  after_fetch walk st s (failed e) = (some e, st, s)
  after_fetch walk st s (returned raw) =
      after_page walk (record st { pages = st.pages + 1; fetched = st.fetched + length raw }) s
        (normalize_page raw)

  -- The loop over the pages; the number is the pages that are left, `maxPages` at the start.
  unfoldable pub walk_pages : ℕ → WalkState → S → Walked S
  unfolding after_fetch
  walk_pages zero st s = (none, st, s)
  walk_pages (suc left) st s =
      let (reply, s') = fetch st.start_at s in
      after_fetch (λ st'. walk_pages left st' s') st s' reply

-- `INSERT OR IGNORE`
unfoldable pub insert_or_ignore :
    NormalizedTransaction → List NormalizedTransaction → List NormalizedTransaction
insert_or_ignore t rows = if any (λ r. text_eq r.hash t.hash) rows then rows else rows ++ t ∷ []

unfoldable pub insert_all :
    List NormalizedTransaction → List NormalizedTransaction → List NormalizedTransaction
unfolding insert_or_ignore
insert_all [] rows = rows
insert_all (t ∷ ts) rows = insert_all ts (insert_or_ignore t rows)

abbrev pub is_of : Text → Text → IndexCursor → Bool
is_of source address c = text_eq c.source source && text_eq c.address address

unfoldable pub upsert_cursor : IndexCursor → List IndexCursor → List IndexCursor
upsert_cursor cursor [] = cursor ∷ []
upsert_cursor cursor (c ∷ cs) =
    let rest = c ∷ upsert_cursor cursor cs in
    if is_of cursor.source cursor.address c then cursor ∷ cs else rest

unfoldable pub read_cursor : Text → Text → List IndexCursor → Option IndexCursor
read_cursor source address cursors = find (is_of source address) cursors

-- The configuration of an indexer that is read here.
pub record IndexerOptions : Type 0 where
  pub source : Text
  pub max_pages : ℕ
  pub backfill_floor_block : ℕ
  pub backfill_days : ℕ

-- A floor before 1970 is taken as 1970: no transaction is older.
unfoldable pub backfill_floor : IndexerOptions → ℕ → Option ℕ
backfill_floor options now_ms =
    if options.backfill_days == 0 then none else some (now_ms - options.backfill_days * 86400000)

unfoldable pub floor_of : IndexerOptions → ℕ → Option IndexCursor → Floor
unfolding backfill_floor
floor_of options now_ms none = record {
  block = options.backfill_floor_block;
  time = backfill_floor options now_ms;
  cursor = none;
}
floor_of options now_ms (some c) = record {
  block = options.backfill_floor_block;
  time = none;
  cursor = some c;
}

abbrev pub cursor_of : Text → Text → NormalizedTransaction → IndexCursor
cursor_of source address t = record {
  source = source;
  address = address;
  last_block = t.block_number;
  last_tx_hash = some t.hash;
}

-- The transaction that commits a walk: both tables, and the rows inserted.
unfoldable pub commit_walk : Text → Text → IndexDb → WalkState → IndexDb × ℕ
unfolding insert_all upsert_cursor
commit_walk source address db st =
    let rows = insert_all st.kept db.transactions in
    let cursors : List IndexCursor = elim st.newest [
      | none ↦ db.index_cursors
      | some t ↦ upsert_cursor (cursor_of source address t) db.index_cursors
    ] in
    (record { transactions = rows; index_cursors = cursors }, length rows - length db.transactions)

pub record AddressIndexResult : Type 0 where
  pub fetched : ℕ
  pub inserted : ℕ
  pub pages : ℕ
  pub failure : Option Failure

unfoldable pub finish_walk :
    Text → Text → IndexDb → Option Failure → WalkState → AddressIndexResult × IndexDb
unfolding commit_walk
finish_walk source address db (some e) st =
    (record { fetched = st.fetched; inserted = 0; pages = st.pages; failure = some e }, db)
finish_walk source address db none st =
    let (db', inserted) = commit_walk source address db st in
    (record { fetched = st.fetched; inserted = inserted; pages = st.pages; failure = none }, db')

-- `runAddress` up to the ingest.
unfoldable pub ingest_address :
    {S : Type 0}
    → (Text → Option Text → S → Reply (List ChainTransaction) × S)
    → IndexerOptions
    → ℕ
    → Text
    → IndexDb
    → S
    → AddressIndexResult × IndexDb × S
unfolding walk_pages finish_walk floor_of read_cursor
ingest_address fetch options now_ms address db s =
    let cursor = read_cursor options.source address db.index_cursors in
    let (failure, st, s') =
      walk_pages (fetch address) (floor_of options now_ms cursor) options.max_pages walk_start s in
    let (result, db') = finish_walk options.source address db failure st in (result, db', s')
