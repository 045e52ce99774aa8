-- ===== src/Auth/Challenge/Uses.antt =====
-- The use of a challenge by `POST /verify` (server/src/auth.ts), for good.
use steakout.Prelude.{
  ℕ, ◌≡◌, ◌≤◌, refl, sym, ap, ◌∙◌, Text, text_eq, Bool, true, false, not, ◌&&◌, none, some, List,
  any, set_found, found_or, find-update, find-append, find-holds, arith, ◌≢◌, if◌then◌else◌,
  Bool-cases, inl, inr, ◌==◌,
}
use steakout.Prelude.Js.{Iso, at, malformed, parse_date, iso_geb}
use steakout.Addresses.{is_valid_nimiq_address}
use steakout.Api.{Result, ok, err, ApiError, invalid}
use steakout.Json.{Value, trimmed_string}
use steakout.Auth.Challenge.{
  ChallengeRow, UserRow, ChallengeDb, Keys, VerifyBody, insert_challenge, post_challenge,
  get_challenge, is_used, check_challenge, is_bad_body, raw_string, answer_challenge, is_markable,
  mark_used, consume_challenge, post_verify, expired_challenge,
}
use steakout.Auth.Challenge.Laws.{check_challenge-ok, consume_challenge-ok, consumed}

-- A challenge that was used.
pub record IsUsed (db : ChallengeDb) (id : Text) : Type 0 where
  pub row : ChallengeRow
  pub found : get_challenge id db.challenges ≡ some row
  pub used : is_used row.used_at ≡ true

get-mark :
    (id key : Text) (now_ms : ℕ) (rows : List ChallengeRow)
    → get_challenge id (mark_used key now_ms rows).0
      ≡ set_found
          (is_markable key now_ms)
          (λ row. record row { used_at = some (at now_ms) })
          (get_challenge id rows)
unfolding get_challenge mark_used
get-mark id key now_ms rows = find-update (λ row. text_eq row.id id) _ _ rows (λ row. refl)

unmarked : (a b c : Bool) → b ≡ true → (a && not b && c) ≡ false
unmarked a b c h = ground arith

kept_row :
    (row : ChallengeRow) (key : Text) (now_ms : ℕ)
    → is_used row.used_at ≡ true
    → set_found (is_markable key now_ms) (λ r. record r { used_at = some (at now_ms) }) (some row)
      ≡ some row
unfolding is_markable
kept_row row key now_ms h =
    rw (unmarked (text_eq row.id key) (is_used row.used_at) (iso_geb row.expires_at now_ms) h) refl

mark-IsUsed :
    (db : ChallengeDb) (id key : Text) (now_ms : ℕ) (users : List UserRow)
    → IsUsed db id
    → IsUsed (record { challenges = (mark_used key now_ms db.challenges).0; users = users }) id
mark-IsUsed db id key now_ms users u = record {
  row = u.row;
  found = get-mark id key now_ms db.challenges ∙ rw u.found (kept_row u.row key now_ms u.used);
  used = u.used;
}

consume-IsUsed :
    (now_ms : ℕ) (db : ChallengeDb) (key public_key id : Text) (c : Result ChallengeRow)
    → IsUsed db id
    → IsUsed (consume_challenge now_ms db key public_key c).1 id
unfolding consume_challenge get_challenge
consume-IsUsed now_ms db key public_key id (err e) u = u
consume-IsUsed now_ms db key public_key id (ok row) u =
    elim (Bool-cases ((mark_used key now_ms db.challenges).1 == 1)) [
      | inl e ↦ rw e (mark-IsUsed db id key now_ms _ u)
      | inr e ↦ rw e (mark-IsUsed db id key now_ms db.users u)
    ]

pub verify-IsUsed :
    (keys : Keys) (now_ms : ℕ) (db : ChallengeDb) (body : VerifyBody) (id : Text)
    → IsUsed db id
    → IsUsed (post_verify keys now_ms db body).1 id
unfolding post_verify
verify-IsUsed keys now_ms db body id u = elim (Bool-cases (is_bad_body body)) [
  | inl e ↦ rw e u
  | inr e ↦ rw e (consume-IsUsed now_ms db _ _ id _ u)
]

insert-IsUsed :
    (db : ChallengeDb) (row : ChallengeRow) (id : Text)
    → IsUsed db id
    → IsUsed (answer_challenge db row (insert_challenge db row)).1 id
unfolding insert_challenge answer_challenge get_challenge
insert-IsUsed db row id u = elim (Bool-cases (any (λ r. text_eq r.id row.id) db.challenges)) [
  | inl e ↦ rw e u
  | inr e ↦ rw e (record {
    row = u.row;
    found =
        find-append (λ r. text_eq r.id id) db.challenges row
        ∙ ap (found_or (if text_eq row.id id then some row else none)) u.found;
    used = u.used;
  })
]

pub challenge-IsUsed :
    (now_ms : ℕ) (fresh : Text) (ttl : ℕ) (db : ChallengeDb) (address : Value) (id : Text)
    → IsUsed db id
    → IsUsed (post_challenge now_ms fresh ttl db address).1 id
unfolding post_challenge
challenge-IsUsed now_ms fresh ttl db address id u =
    elim (Bool-cases (not (is_valid_nimiq_address (some (raw_string address))))) [
      | inl e ↦ rw e u
      | inr e ↦ rw e (insert-IsUsed db _ id u)
    ]

used_fails :
    (keys : Keys) (now_ms : ℕ) (row : ChallengeRow) (public_key signature : Text)
    → is_used row.used_at ≡ true
    → check_challenge keys now_ms (some row) public_key signature ≡ err expired_challenge
unfolding check_challenge
used_fails keys now_ms row public_key signature h = rw h refl

-- Once used, a challenge signs nobody in, and the attempt changes nothing.
pub used_refused :
    (keys : Keys) (now_ms : ℕ) (db : ChallengeDb) (body : VerifyBody)
    → IsUsed db (trimmed_string body.challenge_id)
    → (e : ApiError) × (post_verify keys now_ms db body ≡ (err e, db))
unfolding post_verify consume_challenge
used_refused keys now_ms db body u = elim (Bool-cases (is_bad_body body)) [
  | inl e ↦ (invalid, rw e refl)
  | inr e ↦ (
    expired_challenge,
    rw
        (
          e,
          u.found,
          used_fails keys now_ms u.row (trimmed_string body.public_key)
              (trimmed_string body.signature) u.used,
        )
        refl,
  )
]

current_geb :
    (e : Iso) (now_ms t : ℕ) → parse_date e ≡ some t → now_ms ≤ t → iso_geb e now_ms ≡ true
current_geb (at ms) now_ms t p l = ground arith
current_geb (malformed r) now_ms t p l = absurd (ground arith)

marks :
    (row : ChallengeRow) (id : Text) (now_ms t : ℕ)
    → text_eq row.id id ≡ true
    → is_used row.used_at ≡ false
    → parse_date row.expires_at ≡ some t
    → now_ms ≤ t
    → set_found (is_markable id now_ms) (λ r. record r { used_at = some (at now_ms) }) (some row)
      ≡ some (record row { used_at = some (at now_ms) })
unfolding is_markable
marks row id now_ms t mine n p l = rw (mine, n, current_geb row.expires_at now_ms t p l) refl

consume_uses :
    (now_ms : ℕ) (db : ChallengeDb) (id public_key address : Text) (row : ChallengeRow) (t : ℕ)
    → get_challenge id db.challenges ≡ some row
    → is_used row.used_at ≡ false
    → parse_date row.expires_at ≡ some t
    → now_ms ≤ t
    → (consume_challenge now_ms db id public_key (ok row)).0 ≡ ok address
    → IsUsed (consume_challenge now_ms db id public_key (ok row)).1 id
unfolding consume_challenge get_challenge
consume_uses now_ms db id public_key address row t f n p l h =
    let mine : text_eq row.id id ≡ true = find-holds (λ r. text_eq r.id id) db.challenges row f in
    let marked : get_challenge id (mark_used id now_ms db.challenges).0
        ≡ some (record row { used_at = some (at now_ms) }) =
      get-mark id id now_ms db.challenges ∙ rw f (marks row id now_ms t mine n p l) in
    elim (Bool-cases ((mark_used id now_ms db.challenges).1 == 1)) [
      | inl e ↦
          rw e (record {
            row = record row { used_at = some (at now_ms) };
            found = marked;
            used = refl;
          })
      | inr e ↦
          rw e (record {
            row = record row { used_at = some (at now_ms) };
            found = marked;
            used = refl;
          })
    ]

bad_fails :
    (keys : Keys) (now_ms : ℕ) (db : ChallengeDb) (body : VerifyBody) (address : Text)
    → is_bad_body body ≡ true
    → (post_verify keys now_ms db body).0 ≢ ok address
unfolding post_verify
bad_fails keys now_ms db body address e h = ground arith

pub verify_uses :
    (keys : Keys) (now_ms : ℕ) (db : ChallengeDb) (body : VerifyBody) (address : Text)
    → (post_verify keys now_ms db body).0 ≡ ok address
    → IsUsed (post_verify keys now_ms db body).1 (trimmed_string body.challenge_id)
unfolding post_verify
verify_uses keys now_ms db body address h =
    let id = trimmed_string body.challenge_id in
    let public_key = trimmed_string body.public_key in
    let passed = consumed keys now_ms db body address h in
    let (row, checked, same) = consume_challenge-ok now_ms db id public_key address _ passed in
    let (t, found, unused, expiry, in_time, signed, bound) =
      check_challenge-ok keys now_ms _ public_key _ row checked in
    let passed' =
      ap (λ c. (consume_challenge now_ms db id public_key c).0) (sym checked) ∙ passed in
    elim (Bool-cases (is_bad_body body)) [
      | inl e ↦ absurd (bad_fails keys now_ms db body address e h)
      | inr e ↦
          rw (e, checked)
            (consume_uses now_ms db id public_key address row t found unused expiry in_time passed')
    ]
