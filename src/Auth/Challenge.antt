-- ===== src/Auth/Challenge.antt =====
-- `POST /challenge` and `POST /verify`. The rate limits in front of them are RateLimit; the counters
-- of metrics.ts, which never fail a request, are left out. The check of signatures and the address of
-- a public key are those of @nimiq/core, `none` where they throw.
pub mod Laws
pub mod Uses
use steakout.Prelude.{
  ℕ, zero, suc, ◌+◌, ◌*◌, ◌/◌, ◌%◌, Text, text, digits, text_eq, is_empty, Bool, true, false, not,
  ◌&&◌, ◌||◌, Option, none, some, List, [], ◌∷◌, ◌++◌, length, any, find, count, update_rows, ltb,
  ◌==◌, if◌then◌else◌, reverse,
}
use steakout.Prelude.Js.{Iso, at, parse_date, iso_geb}
use steakout.Addresses.{normalize_address, is_valid_nimiq_address}
use steakout.Api.{
  Result, ok, err, ApiError, api_error, invalid, challenge_expired, signature_rejected, internal,
}
use steakout.Json.{Value, string, trimmed_string, absent, null}

-- `auth_challenges`
pub record ChallengeRow : Type 0 where
  pub id : Text
  pub address : Text
  pub message : Text
  pub expires_at : Iso
  pub used_at : Option Iso

-- `users`
pub record UserRow : Type 0 where
  pub address : Text
  pub public_key : Text
  pub last_seen_at : Iso

pub record ChallengeDb : Type 0 where
  pub challenges : List ChallengeRow
  pub users : List UserRow

abbrev pub default_challenge_ttl_ms : ℕ
default_challenge_ttl_ms = 5 * 60 * 1000

unfoldable pub build_challenge_message : Text → Text → Text
build_challenge_message id address =
    text "Steakout sign-in:" ++ id ++ text ":" ++ normalize_address address

-- `MSG_PREFIX + message.length + message`, as code units.
unfoldable pub signed_data : Text → Text
unfolding digits
signed_data message =
    (22 ∷ text "Nimiq Signed Message:") ++ (10 ∷ digits (length message)) ++ message

pub record Keys : Type 0 where
  pub verify : Text → Text → Text → Option Bool
  pub user_friendly_address : Text → Option Text

pub data Binding : Type 0 where
  matches mismatches unreadable : Binding

module _ (keys : Keys) where
  -- `verifyHubSignedMessage`: the data, the key and the signature; a failure to parse rejects.
  unfoldable pub verify_hub_signed_message : Text → Text → Text → Bool
  unfolding signed_data
  verify_hub_signed_message message public_key signature =
      elim (keys.verify (signed_data message) public_key signature) [ none ↦ false | some b ↦ b ]

  unfoldable pub address_from_public_key_hex : Text → Option Text
  address_from_public_key_hex public_key = elim (keys.user_friendly_address public_key) [
    | none ↦ none
    | some address ↦ some (normalize_address address)
  ]

  unfoldable pub public_key_binding_result : Text → Text → Binding
  unfolding address_from_public_key_hex
  public_key_binding_result public_key expected = elim (address_from_public_key_hex public_key) [
    | none ↦ unreadable
    | some derived ↦ if text_eq derived (normalize_address expected) then matches else mismatches
  ]

pub record ChallengeReply : Type 0 where
  pub challenge_id : Text
  pub message : Text
  pub expires_at : Iso

unfoldable pub insert_challenge : ChallengeDb → ChallengeRow → Option ChallengeDb
insert_challenge db row =
    if any (λ r. text_eq r.id row.id) db.challenges
    then none
    else some (record db { challenges = db.challenges ++ row ∷ [] })

unfoldable pub new_challenge : Text → ℕ → Text → ChallengeRow
unfolding build_challenge_message
new_challenge fresh_id expires_ms address = record {
  id = fresh_id;
  address = address;
  message = build_challenge_message fresh_id address;
  expires_at = at expires_ms;
  used_at = none;
}

unfoldable pub raw_string : Value → Text
raw_string (string t) = t
raw_string _ = []

unfoldable pub answer_challenge :
    ChallengeDb → ChallengeRow → Option ChallengeDb → Result ChallengeReply × ChallengeDb
answer_challenge db row none = (err (api_error 500 internal), db)
answer_challenge db row (some db') =
    (ok (record { challenge_id = row.id; message = row.message; expires_at = row.expires_at }), db')

-- The clock, `randomUUID()`, the time to live and the field `address`.
unfoldable pub post_challenge :
    ℕ → Text → ℕ → ChallengeDb → Value → Result ChallengeReply × ChallengeDb
unfolding insert_challenge new_challenge raw_string answer_challenge
post_challenge now_ms fresh_id ttl db address =
    let row = new_challenge fresh_id (now_ms + ttl) (normalize_address (raw_string address)) in
    let recorded = answer_challenge db row (insert_challenge db row) in
    if not (is_valid_nimiq_address (some (raw_string address))) then (err invalid, db) else recorded

pub record VerifyBody : Type 0 where
  pub challenge_id : Value
  pub signature : Value
  pub public_key : Value
  pub private_key : Value
  pub seed_phrase : Value
  pub seed : Value

unfoldable pub is_nullish : Value → Bool
is_nullish absent = true
is_nullish null = true
is_nullish _ = false

unfoldable pub get_challenge : Text → List ChallengeRow → Option ChallengeRow
get_challenge id rows = find (λ row. text_eq row.id id) rows

abbrev pub is_used : Option Iso → Bool
is_used none = false
is_used (some t) = true

-- `Number.isFinite(expiresMs) && expiresMs >= now()`
abbrev pub is_current : Option ℕ → ℕ → Bool
is_current none now_ms = false
is_current (some t) now_ms = not (ltb t now_ms)

abbrev pub expired_challenge : ApiError
expired_challenge = api_error 401 challenge_expired

abbrev pub rejected_signature : ApiError
rejected_signature = api_error 401 signature_rejected

abbrev pub is_match : Binding → Bool
is_match matches = true
is_match _ = false

-- The checks on the row, the signature and the key.
unfoldable pub check_challenge : Keys → ℕ → Option ChallengeRow → Text → Text → Result ChallengeRow
unfolding verify_hub_signed_message public_key_binding_result
check_challenge keys now_ms none public_key signature = err expired_challenge
check_challenge keys now_ms (some row) public_key signature =
    if is_used row.used_at
    then err expired_challenge
    else if not (is_current (parse_date row.expires_at) now_ms)
    then err expired_challenge
    else if not (verify_hub_signed_message keys row.message public_key signature)
    then err rejected_signature
    else if not (is_match (public_key_binding_result keys public_key row.address))
    then err rejected_signature
    else ok row

-- `WHERE id = ? AND used_at IS NULL AND expires_at >= ?`
unfoldable pub is_markable : Text → ℕ → ChallengeRow → Bool
is_markable id now_ms row =
    text_eq row.id id && not (is_used row.used_at) && iso_geb row.expires_at now_ms

unfoldable pub mark_used : Text → ℕ → List ChallengeRow → List ChallengeRow × ℕ
unfolding is_markable
mark_used id now_ms rows = (
  update_rows (is_markable id now_ms) (λ row. record row { used_at = some (at now_ms) }) rows,
  count (is_markable id now_ms) rows,
)

unfoldable pub upsert_user : Text → Text → Iso → List UserRow → List UserRow
upsert_user address public_key now [] =
    record { address = address; public_key = public_key; last_seen_at = now } ∷ []
upsert_user address public_key now (user ∷ users) =
    let rest = user ∷ upsert_user address public_key now users in
    if text_eq user.address address
    then record user { public_key = public_key; last_seen_at = now } ∷ users
    else rest

-- The signed-in address; the session cookie is made of it.
unfoldable pub consume_challenge :
    ℕ → ChallengeDb → Text → Text → Result ChallengeRow → Result Text × ChallengeDb
unfolding mark_used upsert_user
consume_challenge now_ms db id public_key (err e) = (err e, db)
consume_challenge now_ms db id public_key (ok row) =
    let (marked, changes) = mark_used id now_ms db.challenges in
    let address = normalize_address row.address in
    let signed_in : ChallengeDb = record {
      challenges = marked;
      users = upsert_user address public_key (at now_ms) db.users;
    } in
    if changes == 1
    then (ok address, signed_in)
    else (err expired_challenge, record db { challenges = marked })

-- A missing field, or one that holds key material.
unfoldable pub is_bad_body : VerifyBody → Bool
unfolding is_nullish
is_bad_body body =
    is_empty (trimmed_string body.challenge_id)
    || is_empty (trimmed_string body.signature)
    || is_empty (trimmed_string body.public_key)
    || not (is_nullish body.private_key && is_nullish body.seed_phrase && is_nullish body.seed)

unfoldable pub post_verify : Keys → ℕ → ChallengeDb → VerifyBody → Result Text × ChallengeDb
unfolding check_challenge consume_challenge get_challenge is_bad_body
post_verify keys now_ms db body =
    let id = trimmed_string body.challenge_id in
    let public_key = trimmed_string body.public_key in
    let checked =
      check_challenge keys now_ms (get_challenge id db.challenges) public_key
        (trimmed_string body.signature) in
    let consumed = consume_challenge now_ms db id public_key checked in
    if is_bad_body body then (err invalid, db) else consumed
