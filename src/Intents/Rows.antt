-- ===== src/Intents/Rows.antt =====
-- The statements on `staking_intents`.
pub mod Laws
use steakout.Prelude.{
  ℕ, zero, suc, ◌+◌, Text, text_eq, trim, is_empty, Bool, true, false, ◌&&◌, ◌||◌, Option, none,
  some, List, [], ◌∷◌, ◌++◌, map, if◌then◌else◌, any, find, count,
}
use steakout.Prelude.Js.{Iso, iso_gtb}
use steakout.Addresses.{normalize_address, sql_address}
use steakout.Database.{Database, IntentRow, IntentStatus, pending, confirmed, failed, expired}
use steakout.Reading.{is_pending, is_owned_by}

-- `UPDATE … SET … WHERE …`: the rows after it, and the number of rows changed.
unfoldable pub update_where :
    (IntentRow → Bool) → (IntentRow → IntentRow) → List IntentRow → List IntentRow
update_where p f [] = []
update_where p f (row ∷ rows) = (if p row then f row else row) ∷ update_where p f rows

unfoldable pub update_intents :
    (IntentRow → Bool) → (IntentRow → IntentRow) → Database → Database × ℕ
unfolding update_where
update_intents p f db = (
  record db { staking_intents = update_where p f db.staking_intents },
  count p db.staking_intents,
)

unfoldable pub get_intent_by_id : Database → Text → Option IntentRow
get_intent_by_id db id = find (λ row. text_eq row.id id) db.staking_intents

unfoldable pub count_pending_intents : Database → Text → ℕ → ℕ
unfolding is_owned_by
count_pending_intents db address now_ms =
    count
      (λ row.
        is_owned_by (normalize_address address) row
        && is_pending row.status
        && iso_gtb row.expires_at now_ms)
      db.staking_intents

-- `tx_hash IS NULL OR trim(tx_hash) = ''`
unfoldable pub has_no_tx : Option Text → Bool
has_no_tx none = true
has_no_tx (some hash) = is_empty (trim hash)

unfoldable pub is_abandoned : Text → IntentRow → Bool
unfolding is_owned_by has_no_tx
is_abandoned address row = is_owned_by address row && is_pending row.status && has_no_tx row.tx_hash

abbrev pub expire : IntentRow → IntentRow
expire row = record row { status = expired }

unfoldable pub expire_abandoned_pending_intents : Database → Text → Database × ℕ
unfolding update_intents is_abandoned
expire_abandoned_pending_intents db user_address =
    update_intents (is_abandoned (normalize_address user_address)) expire db

-- `WHERE id = ? AND status = 'pending'`
unfoldable pub is_pending_id : Text → IntentRow → Bool
is_pending_id id row = text_eq row.id id && is_pending row.status

unfoldable pub expire_intent : Database → Text → Database
unfolding update_intents is_pending_id
expire_intent db id = (update_intents (is_pending_id id) expire db).0

unfoldable pub fail_intent : Database → Text → Text → Database
unfolding update_intents is_pending_id
fail_intent db id hash =
    (update_intents (is_pending_id id) (λ row. record row { status = failed; tx_hash = some hash })
      db).0

unfoldable pub confirm_intent : Database → Text → Text → Iso → Database × ℕ
unfolding update_intents is_pending_id
confirm_intent db id hash time =
    update_intents (is_pending_id id)
      (λ row. record row { status = confirmed; tx_hash = some hash; confirmed_at = some time }) db

-- `INSERT`, refused where the primary key is taken.
unfoldable pub insert_intent : Database → IntentRow → Option Database
insert_intent db row =
    if any (λ r. text_eq r.id row.id) db.staking_intents
    then none
    else some (record db { staking_intents = db.staking_intents ++ row ∷ [] })
