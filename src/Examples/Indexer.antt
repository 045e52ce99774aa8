-- ===== src/Examples/Indexer.antt =====
-- An address with a stored transaction and its cursor, and a node that has one more.
use steakout.Prelude.{ℕ, ◌≤◌, ◌≡◌, refl, suc, Text, text, true, Option, none, some, List, [], ◌∷◌}
use steakout.Prelude.Js.{int}
use steakout.Json.{number, absent}
use steakout.Rpc.{Reply, returned}
use steakout.Indexer.{ChainTransaction, NormalizedTransaction, IndexCursor, IndexDb}
use steakout.Indexer.Address.{IndexerOptions, ingest_address}
use steakout.Indexer.Table.{is_keyed}
use steakout.Indexer.Laws.{
  IsExtended, is_anchored, ingest-IsExtended, ingest-anchored, ingest-pages,
}

abbrev stored : NormalizedTransaction
stored = record {
  hash = text "a";
  from_address = text "r";
  to_address = text "x";
  value_luna = 5;
  fee_luna = 0;
  block_number = 7;
  timestamp = 9000;
  is_ok = true;
}

abbrev fresh : ChainTransaction
fresh = record {
  hash = text "b";
  from = text "r";
  to = text "y";
  value = number (int 6);
  fee = number (int 0);
  block_number = number (int 8);
  validity_start_height = absent;
  timestamp = number (int 10);
  execution_result = true;
}

abbrev cursor : IndexCursor
cursor = record {
  source = text "rpc";
  address = text "r";
  last_block = 7;
  last_tx_hash = some (text "a");
}

abbrev db : IndexDb
db = record { transactions = stored ∷ []; index_cursors = cursor ∷ [] }

abbrev options : IndexerOptions
options = record {
  source = text "rpc";
  max_pages = 3;
  backfill_floor_block = 0;
  backfill_days = 30;
}

-- The node gives the new transaction, then nothing; it counts its pages.
abbrev fetch : Text → Option Text → ℕ → Reply (List ChainTransaction) × ℕ
fetch address none n = (returned (fresh ∷ []), suc n)
fetch address (some hash) n = (returned [], suc n)

keyed : is_keyed db.transactions ≡ true
keyed = refl

anchored : is_anchored db ≡ true
unfolding steakout.Prelude.text_eq
anchored = refl

ingest-IsExtended_example :
    IsExtended db
      (ingest_address fetch options 20000 (text "r") db 0).1
      (ingest_address fetch options 20000 (text "r") db 0).0
ingest-IsExtended_example = ingest-IsExtended fetch options 20000 (text "r") db 0 keyed

ingest-anchored_example : is_anchored (ingest_address fetch options 20000 (text "r") db 0).1 ≡ true
ingest-anchored_example = ingest-anchored fetch options 20000 (text "r") db 0 anchored

ingest-pages_example : (ingest_address fetch options 20000 (text "r") db 0).0.pages ≤ 3
ingest-pages_example = ingest-pages fetch options 20000 (text "r") db 0

one_inserted : (ingest_address fetch options 20000 (text "r") db 0).0.inserted ≡ 1
unfolding ingest_address steakout.Prelude.trim steakout.Prelude.text_eq
one_inserted = refl
