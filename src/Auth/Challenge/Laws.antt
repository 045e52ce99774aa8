-- ===== src/Auth/Challenge/Laws.antt =====
-- What a sign-in by `POST /verify` (server/src/auth.ts) rests on.
use steakout.Prelude.{ℕ, ◌≡◌, ◌≤◌, refl, Text, true, false, Option, none, some, arith}
use steakout.Prelude.Js.{parse_date, iso_rank}
use steakout.Addresses.{normalize_address}
use steakout.Api.{Result, ok, err}
use steakout.Json.{trimmed_string}
use steakout.Auth.Challenge.{
  ChallengeRow, ChallengeDb, Keys, VerifyBody, verify_hub_signed_message, public_key_binding_result,
  get_challenge, is_used, is_match, check_challenge, consume_challenge, post_verify,
}

-- What the server has seen when it signs somebody in: a challenge of its own that was neither used
-- nor expired, a signature over its message, and a key that belongs to its address.
pub record IsProven (keys : Keys) (now_ms : ℕ) (db : ChallengeDb) (body : VerifyBody)
    (address : Text) : Type 0 where
  pub row : ChallengeRow
  pub expires_at : ℕ
  pub found : get_challenge (trimmed_string body.challenge_id) db.challenges ≡ some row
  pub unused : is_used row.used_at ≡ false
  pub expiry : parse_date row.expires_at ≡ some expires_at
  pub in_time : now_ms ≤ expires_at
  pub signed :
      verify_hub_signed_message keys row.message
        (trimmed_string body.public_key)
        (trimmed_string body.signature)
      ≡ true
  pub bound :
      is_match (public_key_binding_result keys (trimmed_string body.public_key) row.address) ≡ true
  pub same : address ≡ normalize_address row.address

pub check_challenge-ok :
    (keys : Keys) (now_ms : ℕ) (found : Option ChallengeRow) (public_key signature : Text)
    (row : ChallengeRow)
    → check_challenge keys now_ms found public_key signature ≡ ok row
    → (t : ℕ) × (found ≡ some row)
      × (is_used row.used_at ≡ false)
      × (parse_date row.expires_at ≡ some t)
      × (now_ms ≤ t)
      × (verify_hub_signed_message keys row.message public_key signature ≡ true)
      × (is_match (public_key_binding_result keys public_key row.address) ≡ true)
unfolding check_challenge
check_challenge-ok keys now_ms none public_key signature row h = absurd (ground arith)
check_challenge-ok keys now_ms (some r) public_key signature row h = (
  iso_rank row.expires_at,
  ground arith,
  ground arith,
  ground arith,
  ground arith,
  ground arith,
  ground arith,
)

pub consume_challenge-ok :
    (now_ms : ℕ) (db : ChallengeDb) (id public_key address : Text) (c : Result ChallengeRow)
    → (consume_challenge now_ms db id public_key c).0 ≡ ok address
    → (row : ChallengeRow) × (c ≡ ok row) × (address ≡ normalize_address row.address)
unfolding consume_challenge get_challenge
consume_challenge-ok now_ms db id public_key address (err e) h = absurd (ground arith)
consume_challenge-ok now_ms db id public_key address (ok row) h = (row, refl, ground arith)

pub consumed :
    (keys : Keys) (now_ms : ℕ) (db : ChallengeDb) (body : VerifyBody) (address : Text)
    → (post_verify keys now_ms db body).0 ≡ ok address
    → (consume_challenge now_ms db
        (trimmed_string body.challenge_id)
        (trimmed_string body.public_key)
        (check_challenge keys now_ms
          (get_challenge (trimmed_string body.challenge_id) db.challenges)
          (trimmed_string body.public_key)
          (trimmed_string body.signature))).0
      ≡ ok address
unfolding post_verify
consumed keys now_ms db body address h = ground arith

-- A sign-in succeeds only on a proof: a challenge that the server issued, that was neither used nor
-- expired, a signature over its message by the key that was sent, and a key whose address is the
-- challenged one, which is the address signed in.
pub verify_sound :
    (keys : Keys) (now_ms : ℕ) (db : ChallengeDb) (body : VerifyBody) (address : Text)
    → (post_verify keys now_ms db body).0 ≡ ok address
    → IsProven keys now_ms db body address
verify_sound keys now_ms db body address h =
    let (row, checked, same) =
      consume_challenge-ok now_ms db _ _ address _ (consumed keys now_ms db body address h) in
    let (t, found, unused, expiry, in_time, signed, bound) =
      check_challenge-ok keys now_ms _ _ _ row checked in
    record {
      row = row;
      expires_at = t;
      found = found;
      unused = unused;
      expiry = expiry;
      in_time = in_time;
      signed = signed;
      bound = bound;
      same = same;
    }
