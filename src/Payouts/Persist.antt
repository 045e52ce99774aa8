-- ===== src/Payouts/Persist.antt =====
-- `persistPayoutRuns`: the runs of a validator as rows of `validator_observations`.
pub mod Laws
use steakout.Prelude.{
  ℕ, suc, ◌+◌, Text, text, text_eq, is_empty, Bool, true, false, not, ◌&&◌, ◌||◌, Option, none,
  some, List, [], ◌∷◌, ◌++◌, ◌==◌, if◌then◌else◌, any, filter, map, length,
}
use steakout.Prelude.Js.{Iso, at}
use steakout.Payouts.{PayoutRun}

pub record PayoutRunPayload : Type 0 where
  pub window_start : Iso
  pub window_end : Iso
  pub tx_count : ℕ
  pub recipient_count : ℕ
  pub recipients : List Text
  pub first_block : ℕ
  pub last_block : ℕ
  pub tx_hashes : List Text
  pub first_tx_hash : Text
  pub last_tx_hash : Text
  pub total_value_luna : ℕ
  pub window_minutes : ℕ

unfoldable pub payout_run_to_payload : PayoutRun → ℕ → PayoutRunPayload
payout_run_to_payload run window_minutes = record {
  window_start = run.started_at;
  window_end = run.ended_at;
  tx_count = run.tx_count;
  recipient_count = run.recipient_count;
  recipients = run.recipients;
  first_block = run.first_block;
  last_block = run.last_block;
  tx_hashes = run.tx_hashes;
  first_tx_hash = run.first_tx_hash;
  last_tx_hash = run.last_tx_hash;
  total_value_luna = run.total_value_luna;
  window_minutes = window_minutes;
}

-- A row of the table. `payload_json` is `none` where the text is not that of a payload.
pub record ObservationRow : Type 0 where
  pub id : ℕ
  pub validator_address : Text
  pub observation_type : Text
  pub status : Text
  pub observed_at : Iso
  pub source_tx_hash : Option Text
  pub block_number : Option ℕ
  pub calc_version : ℕ
  pub payload_json : Option PayoutRunPayload

-- The table, with the next id that AUTOINCREMENT gives.
pub record Observations : Type 0 where
  pub rows : List ObservationRow
  pub next_id : ℕ

abbrev pub payout_run_type : Text
payout_run_type = text "payout-run"

abbrev pub payout_run_status : Text
payout_run_status = text "verified"

-- The tests on stored texts. The times of a run are never malformed.
unfoldable pub iso_eq : Iso → Iso → Bool
iso_eq (at a) (at b) = a == b
iso_eq _ _ = false

unfoldable pub texts_eq : List Text → List Text → Bool
texts_eq [] [] = true
texts_eq (a ∷ as') (b ∷ bs) = text_eq a b && texts_eq as' bs
texts_eq _ _ = false

unfoldable pub payload_eq : PayoutRunPayload → PayoutRunPayload → Bool
unfolding iso_eq texts_eq
payload_eq p q =
    iso_eq p.window_start q.window_start
    && iso_eq p.window_end q.window_end
    && p.tx_count == q.tx_count
    && p.recipient_count == q.recipient_count
    && texts_eq p.recipients q.recipients
    && p.first_block == q.first_block
    && p.last_block == q.last_block
    && texts_eq p.tx_hashes q.tx_hashes
    && text_eq p.first_tx_hash q.first_tx_hash
    && text_eq p.last_tx_hash q.last_tx_hash
    && p.total_value_luna == q.total_value_luna
    && p.window_minutes == q.window_minutes

abbrev pub same_payload : Option PayoutRunPayload → PayoutRunPayload → Bool
same_payload none q = false
same_payload (some p) q = payload_eq p q

abbrev pub same_block : Option ℕ → ℕ → Bool
same_block none n = false
same_block (some m) n = m == n

-- The validator, the version and the window of one call.
pub record PersistOptions : Type 0 where
  pub validator_address : Text
  pub calc_version : ℕ
  pub window_minutes : ℕ

-- `WHERE validator_address = ? AND observation_type = ? AND calc_version = ?`
unfoldable pub in_scope : PersistOptions → ObservationRow → Bool
in_scope o row =
    text_eq row.validator_address o.validator_address
    && text_eq row.observation_type payout_run_type
    && row.calc_version == o.calc_version

abbrev pub has_source : Text → Option Text → Bool
has_source hash none = false
has_source hash (some t) = not (is_empty t) && text_eq t hash

-- `bySourceHash.get(hash)`: the last row of a hash stands in the map.
unfoldable pub prior_of : Text → List ObservationRow → Option ObservationRow
prior_of hash [] = none
prior_of hash (row ∷ rows) = elim (prior_of hash rows) [
  | some later ↦ some later
  | none ↦ if has_source hash row.source_tx_hash then some row else none
]

unfoldable pub is_unchanged : ObservationRow → PayoutRun → PayoutRunPayload → Bool
unfolding payload_eq
is_unchanged prior run payload =
    same_payload prior.payload_json payload
    && iso_eq prior.observed_at run.ended_at
    && same_block prior.block_number run.first_block
    && text_eq prior.status payout_run_status

unfoldable pub new_row : PersistOptions → PayoutRun → PayoutRunPayload → ℕ → ObservationRow
new_row o run payload id = record {
  id = id;
  validator_address = o.validator_address;
  observation_type = payout_run_type;
  status = payout_run_status;
  observed_at = run.ended_at;
  source_tx_hash = some run.first_tx_hash;
  block_number = some run.first_block;
  calc_version = o.calc_version;
  payload_json = some payload;
}

unfoldable pub insert_run :
    PersistOptions → PayoutRun → PayoutRunPayload → Observations → Observations
unfolding new_row
insert_run o run payload t = record {
  rows = t.rows ++ new_row o run payload t.next_id ∷ [];
  next_id = suc t.next_id;
}

unfoldable pub refreshed : PayoutRun → PayoutRunPayload → ObservationRow → ObservationRow
refreshed run payload row = record row {
  status = payout_run_status;
  observed_at = run.ended_at;
  block_number = some run.first_block;
  payload_json = some payload;
}

-- `UPDATE … WHERE id = ?`
unfoldable pub update_run :
    ℕ → PayoutRun → PayoutRunPayload → List ObservationRow → List ObservationRow
unfolding refreshed
update_run id run payload [] = []
update_run id run payload (row ∷ rows) =
    (if row.id == id then refreshed run payload row else row) ∷ update_run id run payload rows

-- `DELETE … WHERE id = ?`
unfoldable pub delete_row : ℕ → List ObservationRow → List ObservationRow
delete_row id rows = filter (λ row. not (row.id == id)) rows

pub record Counts : Type 0 where
  pub inserted : ℕ
  pub updated : ℕ
  pub removed : ℕ

unfoldable pub store_run :
    PersistOptions
    → PayoutRun
    → Option ObservationRow
    → Observations × Counts
    → Observations × Counts
unfolding insert_run update_run is_unchanged payout_run_to_payload
store_run o run none (t, c) = (
  insert_run o run (payout_run_to_payload run o.window_minutes) t,
  record c { inserted = suc c.inserted },
)
store_run o run (some prior) (t, c) =
    let payload = payout_run_to_payload run o.window_minutes in
    if is_unchanged prior run payload then (t, c) else (
      record t { rows = update_run prior.id run payload t.rows },
      record c { updated = suc c.updated },
    )

unfoldable pub store_runs :
    PersistOptions
    → List ObservationRow
    → List PayoutRun
    → Observations × Counts
    → Observations × Counts
unfolding store_run prior_of
store_runs o existing [] s = s
store_runs o existing (run ∷ runs) s =
    store_runs o existing runs (store_run o run (prior_of run.first_tx_hash existing) s)

-- No run of this call has the source of the row.
unfoldable pub is_orphan : List PayoutRun → Option Text → Bool
is_orphan runs none = true
is_orphan runs (some key) = is_empty key || not (any (λ run. text_eq run.first_tx_hash key) runs)

-- One row of the second loop.
unfoldable pub remove_if_orphan :
    List PayoutRun → ObservationRow → Observations × Counts → Observations × Counts
unfolding is_orphan delete_row
remove_if_orphan runs row (t, c) =
    if is_orphan runs row.source_tx_hash
    then (record t { rows = delete_row row.id t.rows }, record c { removed = suc c.removed })
    else (t, c)

unfoldable pub remove_orphans :
    List PayoutRun → List ObservationRow → Observations × Counts → Observations × Counts
unfolding remove_if_orphan
remove_orphans runs [] s = s
remove_orphans runs (row ∷ existing) s = remove_orphans runs existing (remove_if_orphan runs row s)

unfoldable pub persist_payout_runs :
    PersistOptions → List PayoutRun → Observations → Observations × Counts
unfolding store_runs remove_orphans in_scope
persist_payout_runs o runs t =
    let existing = filter (in_scope o) t.rows in
    remove_orphans runs existing
      (store_runs o existing runs (t, record { inserted = 0; updated = 0; removed = 0 }))
