-- ===== src/Auth/Pairing.antt =====
-- `POST /desktop-pair`, `GET /desktop-pair/:pairId`, `/approve` and `/claim`. The times of creation,
-- approval and claim are written and never read, and are left out.
pub mod Protocol
pub mod Claims
pub mod Journey
use steakout.Prelude.{
  ℕ, ◌+◌, ◌*◌, Text, text_eq, trim, is_empty, Bool, true, false, not, ◌&&◌, ◌||◌, Option, none,
  some, List, [], ◌∷◌, ◌++◌, find, count, any, update_rows, ltb, ◌==◌, if◌then◌else◌,
}
use steakout.Prelude.Js.{Iso, at, parse_date}
use steakout.Addresses.{normalize_address}
use steakout.Api.{Result, ok, err, ApiError, api_error, invalid, validation, internal}
use steakout.Json.{Value, trimmed_string}
use steakout.Auth.Challenge.{is_current}

-- `unknown` is any text that the code never writes.
pub data PairingStatus : Type 0 where
  waiting approved claimed expired unknown : PairingStatus

-- `desktop_pairings`
pub record PairingRow : Type 0 where
  pub id : Text
  pub status : PairingStatus
  pub address : Option Text
  pub expires_at : Iso

abbrev pub desktop_pair_ttl_ms : ℕ
desktop_pair_ttl_ms = 5 * 60 * 1000

pub record PairReply : Type 0 where
  pub pair_id : Text
  pub expires_at : Iso

unfoldable pub new_pairing : Text → ℕ → PairingRow
new_pairing fresh_id expires_ms = record {
  id = fresh_id;
  status = waiting;
  address = none;
  expires_at = at expires_ms;
}

-- The clock and `randomUUID()`.
unfoldable pub post_pair : ℕ → Text → List PairingRow → Result PairReply × List PairingRow
unfolding new_pairing
post_pair now_ms fresh_id rows =
    let expires_ms = now_ms + desktop_pair_ttl_ms in
    if any (λ r. text_eq r.id fresh_id) rows then (err (api_error 500 internal), rows) else (
      ok (record { pair_id = fresh_id; expires_at = at expires_ms }),
      rows ++ new_pairing fresh_id expires_ms ∷ [],
    )

unfoldable pub get_pairing : Text → List PairingRow → Option PairingRow
get_pairing id rows = find (λ row. text_eq row.id id) rows

abbrev pub missing_pairing : ApiError
missing_pairing = api_error 404 validation

abbrev pub is_open : PairingStatus → Bool
is_open waiting = true
is_open approved = true
is_open _ = false

abbrev pub is_approved : PairingStatus → Bool
is_approved approved = true
is_approved _ = false

abbrev pub has_address : PairingStatus → Bool
has_address approved = true
has_address claimed = true
has_address _ = false

abbrev pub expire_row : PairingRow → PairingRow
expire_row row = record row { status = expired }

-- `UPDATE … SET status = 'expired' WHERE id = ?`
unfoldable pub expire_pairing : Text → List PairingRow → List PairingRow
expire_pairing id rows = update_rows (λ row. text_eq row.id id) expire_row rows

-- The same `AND status IN ('waiting','approved')`.
unfoldable pub expire_open : Text → List PairingRow → List PairingRow
expire_open id rows = update_rows (λ row. text_eq row.id id && is_open row.status) expire_row rows

pub record PairingView : Type 0 where
  pub status : PairingStatus
  pub address : Option Text
  pub expires_at : Iso

unfoldable pub show_pairing :
    ℕ → List PairingRow → Text → Option PairingRow → Result PairingView × List PairingRow
unfolding expire_open
show_pairing now_ms rows id none = (err missing_pairing, rows)
show_pairing now_ms rows id (some row) =
    let lapsed = if is_open row.status then expire_open id rows else rows in
    if is_current (parse_date row.expires_at) now_ms
    then (
      ok (record {
        status = row.status;
        address = if has_address row.status then row.address else none;
        expires_at = row.expires_at;
      }),
      rows,
    )
    else (ok (record { status = expired; address = none; expires_at = row.expires_at }), lapsed)

unfoldable pub get_pair : ℕ → List PairingRow → Text → Result PairingView × List PairingRow
unfolding show_pairing get_pairing
get_pair now_ms rows param =
    let shown = show_pairing now_ms rows (trim param) (get_pairing (trim param) rows) in
    if is_empty (trim param) then (err invalid, rows) else shown

-- `WHERE id = ? AND status IN ('waiting','approved')`
unfoldable pub set_approved : Text → Text → List PairingRow → List PairingRow
set_approved id address rows =
    update_rows (λ row. text_eq row.id id && is_open row.status)
      (λ row. record row { status = approved; address = some address }) rows

-- The address that is approved.
unfoldable pub approve_row :
    ℕ → List PairingRow → Text → Text → Option PairingRow → Result Text × List PairingRow
unfolding expire_pairing set_approved
approve_row now_ms rows user id none = (err missing_pairing, rows)
approve_row now_ms rows user id (some row) =
    if not (is_current (parse_date row.expires_at) now_ms)
    then (err invalid, expire_pairing id rows)
    else if not (is_open row.status)
    then (err invalid, rows)
    else (ok (normalize_address user), set_approved id (normalize_address user) rows)

-- `user` is the address of the session.
unfoldable pub post_approve : ℕ → List PairingRow → Text → Value → Result Text × List PairingRow
unfolding approve_row get_pairing
post_approve now_ms rows user pair_id =
    let id = trimmed_string pair_id in
    let done = approve_row now_ms rows user id (get_pairing id rows) in
    if is_empty id then (err invalid, rows) else done

-- `WHERE id = ? AND status = 'approved'`
unfoldable pub is_claimable : Text → PairingRow → Bool
is_claimable id row = text_eq row.id id && is_approved row.status

unfoldable pub set_claimed : Text → List PairingRow → List PairingRow × ℕ
unfolding is_claimable
set_claimed id rows = (
  update_rows (is_claimable id) (λ row. record row { status = claimed }) rows,
  count (is_claimable id) rows,
)

-- The address that is claimed, where the row has one.
unfoldable pub ready_address : PairingStatus → Option Text → Option Text
ready_address approved (some address) = if is_empty address then none else some address
ready_address _ _ = none

-- The session is made for the address returned.
unfoldable pub finish_claim : List PairingRow → Text → Option Text → Result Text × List PairingRow
unfolding set_claimed
finish_claim rows id none = (err invalid, rows)
finish_claim rows id (some address) =
    let (marked, changes) = set_claimed id rows in
    if changes == 1 then (ok (normalize_address address), marked) else (err invalid, marked)

unfoldable pub claim_row :
    ℕ → List PairingRow → Text → Option PairingRow → Result Text × List PairingRow
unfolding expire_pairing finish_claim ready_address
claim_row now_ms rows id none = (err missing_pairing, rows)
claim_row now_ms rows id (some row) =
    let finished = finish_claim rows id (ready_address row.status row.address) in
    if not (is_current (parse_date row.expires_at) now_ms)
    then (err invalid, expire_pairing id rows)
    else finished

unfoldable pub post_claim : ℕ → List PairingRow → Value → Result Text × List PairingRow
unfolding claim_row get_pairing
post_claim now_ms rows pair_id =
    let id = trimmed_string pair_id in
    let done = claim_row now_ms rows id (get_pairing id rows) in
    if is_empty id then (err invalid, rows) else done
