-- ===== src/Indexer/Laws.antt =====
-- What the ingest of server/src/payoutIndexer.ts keeps of its tables, and how far its walk goes.
use mathlib.Core.List.{append-nil}
use steakout.Prelude.{
  ℕ, ◌-◌, ◌≤◌, ◌≡◌, refl, sym, ap, ◌∙◌, Text, Bool, true, Option, none, some, List, [], ◌∷◌, ◌++◌,
  all, length, length-append, arith, Bool-cases, inl, inr,
}
use steakout.Rpc.{Failure, Reply}
use steakout.Indexer.{
  ChainTransaction, NormalizedTransaction, IndexCursor, IndexDb, WalkState, walk_start,
}
use steakout.Indexer.Address.{
  Walked, walk_pages, insert_all, upsert_cursor, cursor_of, is_of, read_cursor, IndexerOptions,
  floor_of, commit_walk, AddressIndexResult, finish_walk, ingest_address,
}
use steakout.Indexer.Table.{
  is_keyed, is_stored, insert_all-Grows, stored-insert_all, inserted_stored,
}
use steakout.Indexer.Walk.{newest_kept, IsSound, walk-IsSound}

-- The tables after an ingest: rows were added at the end of `transactions`, as many as are reported,
-- and the hash is still the key.
pub record IsExtended (db db' : IndexDb) (r : AddressIndexResult) : Type 0 where
  pub added : List NormalizedTransaction
  pub grown : db'.transactions ≡ db.transactions ++ added
  pub counted : r.inserted ≡ length added
  pub keyed : is_keyed db'.transactions ≡ true

abbrev pub is_pointed : List NormalizedTransaction → Option Text → Bool
is_pointed rows none = true
is_pointed rows (some h) = is_stored rows h

-- Every cursor points to a stored transaction.
abbrev pub points : List NormalizedTransaction → IndexCursor → Bool
points rows c = is_pointed rows c.last_tx_hash

abbrev pub is_anchored : IndexDb → Bool
is_anchored db = all (points db.transactions) db.index_cursors

module _ (source address : Text) (db : IndexDb) where
  finish-IsExtended :
      (o : Option Failure) (st : WalkState)
      → is_keyed db.transactions ≡ true
      → IsExtended db (finish_walk source address db o st).1 (finish_walk source address db o st).0
  unfolding finish_walk commit_walk
  finish-IsExtended (some e) st h = record {
    added = [];
    grown = sym (append-nil db.transactions);
    counted = refl;
    keyed = h;
  }
  finish-IsExtended none st h =
      let g = insert_all-Grows st.kept db.transactions h in
      record {
        added = g.added;
        grown = g.grown;
        counted =
            ap (λ rows. length rows - length db.transactions) g.grown
            ∙ rw (length-append db.transactions g.added) (omega arith);
        keyed = g.keyed;
      }

  pointed-kept :
      (ts rows : List NormalizedTransaction) (h : Option Text)
      → is_pointed rows h ≡ true
      → is_pointed (insert_all ts rows) h ≡ true
  pointed-kept ts rows none p = refl
  pointed-kept ts rows (some h) p = stored-insert_all ts rows h p

  all-points :
      (ts rows : List NormalizedTransaction) (cs : List IndexCursor)
      → all (points rows) cs ≡ true
      → all (points (insert_all ts rows)) cs ≡ true
  all-points ts rows [] h = refl
  all-points ts rows (c ∷ cs) h =
      rw (pointed-kept ts rows c.last_tx_hash (ground arith), all-points ts rows cs (ground arith))
        refl

  all-upsert :
      (p : IndexCursor → Bool) (c : IndexCursor) (cs : List IndexCursor)
      → p c ≡ true
      → all p cs ≡ true
      → all p (upsert_cursor c cs) ≡ true
  unfolding upsert_cursor
  all-upsert p c [] h g = rw h refl
  all-upsert p c (x ∷ xs) h g = elim (Bool-cases (is_of c.source c.address x)) [
    | inl same ↦ rw (same, h) (ground arith)
    | inr other ↦ rw other (ground (arith, all-upsert p c xs h))
  ]

  finish-anchored :
      (o : Option Failure) (st : WalkState)
      → newest_kept st.kept st.newest ≡ true
      → is_anchored db ≡ true
      → is_anchored (finish_walk source address db o st).1 ≡ true
  unfolding finish_walk commit_walk
  finish-anchored (some e) st h a = a
  finish-anchored none st h a = committed st.newest h
    where
      committed :
          (newest : Option NormalizedTransaction)
          → newest_kept st.kept newest ≡ true
          → is_anchored (record {
            transactions = insert_all st.kept db.transactions;
            index_cursors = elim newest [
              | none ↦ db.index_cursors
              | some t ↦ upsert_cursor (cursor_of source address t) db.index_cursors
            ];
          })
            ≡ true
      committed none k = all-points st.kept db.transactions db.index_cursors a
      committed (some t) k =
          all-upsert (points (insert_all st.kept db.transactions)) (cursor_of source address t)
            db.index_cursors (inserted_stored st.kept db.transactions t.hash k)
            (all-points st.kept db.transactions db.index_cursors a)

module _ {S : Type 0} (fetch : Text → Option Text → S → Reply (List ChainTransaction) × S)
    (options : IndexerOptions) (now_ms : ℕ) (address : Text) (db : IndexDb) (s : S) where
  abbrev outcome : Walked S
  outcome =
      walk_pages (fetch address)
        (floor_of options now_ms (read_cursor options.source address db.index_cursors))
        options.max_pages walk_start s

  walked : IsSound options.max_pages outcome.1
  walked =
      walk-IsSound (fetch address) _ options.max_pages options.max_pages walk_start s (omega arith)
        (record { kept = refl; bounded = omega arith })

  -- An ingest only adds transactions at the end of the table, as many as it reports, and leaves those
  -- that were stored as they are; no hash is stored twice, if none was before. An ingest that fails
  -- is one of these.
  pub ingest-IsExtended :
      is_keyed db.transactions ≡ true
      → IsExtended db
          (ingest_address fetch options now_ms address db s).1
          (ingest_address fetch options now_ms address db s).0
  unfolding ingest_address
  ingest-IsExtended h = finish-IsExtended options.source address db outcome.0 outcome.1 h

  -- Every ingest, whether it fails or not, keeps every cursor pointing to a stored transaction.
  pub ingest-anchored :
      is_anchored db ≡ true
      → is_anchored (ingest_address fetch options now_ms address db s).1 ≡ true
  unfolding ingest_address
  ingest-anchored h = finish-anchored options.source address db outcome.0 outcome.1 walked.kept h

  -- The walk over the pages of an address ends after the pages allowed, whatever the node returns.
  pub ingest-pages : (ingest_address fetch options now_ms address db s).0.pages ≤ options.max_pages
  unfolding ingest_address
  ingest-pages = reported outcome.0 outcome.1 walked.bounded
    where
      reported :
          (o : Option Failure) (st : WalkState)
          → st.pages ≤ options.max_pages
          → (finish_walk options.source address db o st).0.pages ≤ options.max_pages
      reported (some e) st l = l
      reported none st l = l
