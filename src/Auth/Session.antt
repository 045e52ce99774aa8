-- ===== src/Auth/Session.antt =====
-- Session tokens and the cookie they travel in. JSON, HMAC-SHA256 and base64 are those of Node.js.
pub mod Laws
pub mod RoundTrip
use steakout.Prelude.{
  ℕ, zero, suc, ◌+◌, ◌-◌, ◌*◌, ◌/◌, ◌%◌, Text, text, text_eq, trim, is_empty, split_on, Bool, true,
  false, not, ◌&&◌, ◌||◌, Option, none, some, List, [], ◌∷◌, ◌++◌, map, reverse, length, ltb, leb,
  ◌==◌, if◌then◌else◌,
}
use steakout.Prelude.Int.{pos, negsuc}
use steakout.Prelude.Js.{Num, nonfinite, minus_infinity, real, int}
use steakout.Addresses.{normalize_address, is_valid_nimiq_address}
use steakout.Json.{Value, string, number, object, Fields, get_field}

pub record SessionPayload : Type 0 where
  pub address : Text
  pub iat : Num
  pub exp : Num
  pub n : Text

-- Texts of bytes are as texts of units.
pub record Codec : Type 0 where
  pub stringify : SessionPayload → Text
  pub parse_json : Text → Option Value
  pub base64 : Text → Text
  pub from_base64 : Text → Text
  pub hmac : Text → Text → Text

abbrev pub to_url_unit : ℕ → ℕ
to_url_unit c = if c == b'+' then b'-' else if c == b'/' then b'_' else c

abbrev pub of_url_unit : ℕ → ℕ
of_url_unit c = if c == b'-' then b'+' else if c == b'_' then b'/' else c

-- `.replace(/=+$/g, '')`
unfoldable pub strip_padding : Text → Text
strip_padding [] = []
strip_padding (x ∷ xs) = elim (strip_padding xs) [
  | [] ↦ if x == b'=' then [] else x ∷ []
  | y ∷ ys ↦ x ∷ y ∷ ys
]

unfoldable pub repeat : ℕ → ℕ → Text
repeat c zero = []
repeat c (suc k) = c ∷ repeat c k

module _ (codec : Codec) where
  unfoldable pub b64url : Text → Text
  unfolding strip_padding
  b64url bytes = strip_padding (map to_url_unit (codec.base64 bytes))

  -- `Buffer.from(…, 'base64')` does not throw.
  unfoldable pub from_b64url : Text → Text
  unfolding repeat
  from_b64url value =
      let r = length value % 4 in
      codec.from_base64 (map of_url_unit value ++ repeat b'=' (if r == 0 then 0 else 4 - r))

  unfoldable pub sign_payload : SessionPayload → Text → Text
  unfolding b64url
  sign_payload payload secret =
      let body = b64url (codec.stringify payload) in
      body ++ (b'.' ∷ b64url (codec.hmac secret body))

-- `payload.exp < nowMs`
abbrev pub is_before : Num → ℕ → Bool
is_before nonfinite now_ms = false
is_before minus_infinity now_ms = true
is_before (real (pos n) exact) now_ms = ltb n now_ms
is_before (real (negsuc n) exact) now_ms = true

abbrev pub nonce_of : Value → Text
nonce_of (string t) = t
nonce_of _ = []

-- The checks on the fields, in their order; `none` is `null`.
unfoldable pub session_of_fields : ℕ → Value → Value → Value → Value → Option SessionPayload
session_of_fields now_ms (string address) (number exp) (number iat) n =
    if not (is_valid_nimiq_address (some address)) || is_before exp now_ms
    then none
    else some (record { address = normalize_address address; iat = iat; exp = exp; n = nonce_of n })
session_of_fields now_ms _ _ _ n = none

unfoldable pub session_of_json : ℕ → Option Value → Option SessionPayload
unfolding session_of_fields
session_of_json now_ms (some (object f)) =
    session_of_fields now_ms (get_field (text "address") f) (get_field (text "exp") f)
      (get_field (text "iat") f) (get_field (text "n") f)
session_of_json now_ms _ = none

module _ (codec : Codec) (secret : Text) (now_ms : ℕ) where
  unfoldable pub verify_parts : Text → Text → Option SessionPayload
  unfolding session_of_json from_b64url
  verify_parts body sig =
      let checked = session_of_json now_ms (codec.parse_json (from_b64url codec body)) in
      if is_empty body || is_empty sig
      then none
      else if not (text_eq (from_b64url codec sig) (codec.hmac secret body))
      then none
      else checked

  unfoldable pub verify_of : List Text → Option SessionPayload
  unfolding verify_parts
  verify_of (body ∷ sig ∷ []) = verify_parts body sig
  verify_of _ = none

  unfoldable pub verify_signed_token : Text → Option SessionPayload
  unfolding verify_of
  verify_signed_token token = verify_of (split_on b'.' token)

-- `part.indexOf('=')`, with the texts before and after it; `none` where it is not positive.
unfoldable pub cut_at_equals : Text → Option (Text × Text)
cut_at_equals [] = none
cut_at_equals (x ∷ xs) =
    let rest = cut_at_equals xs in
    if x == b'=' then some ([], xs) else elim rest [ none ↦ none | some (k, v) ↦ some (x ∷ k, v) ]

-- The value that one part of the header sets for a name. `decode` is `decodeURIComponent`.
unfoldable pub cookie_value : (Text → Option Text) → Text → Text → Option Text
unfolding cut_at_equals
cookie_value decode name part = elim (cut_at_equals part) [
  | none ↦ none
  | some (k, v) ↦
      let value : Text = elim (decode (trim v)) [ none ↦ trim v | some d ↦ d ] in
      if is_empty k || is_empty (trim k) || not (text_eq (trim k) name) then none else some value
]

-- `parseCookies(header)[name]`: the last part that sets the name counts.
unfoldable pub find_cookie : (Text → Option Text) → Text → List Text → Option Text
unfolding cookie_value
find_cookie decode name [] = none
find_cookie decode name (part ∷ parts) = elim (find_cookie decode name parts) [
  | some v ↦ some v
  | none ↦ cookie_value decode name part
]

abbrev pub cookie_name : Text
cookie_name = text "steakout_session"

unfoldable pub read_session :
    Codec → (Text → Option Text) → Text → ℕ → Option Text → Option SessionPayload
unfolding verify_signed_token find_cookie
read_session codec decode secret now_ms none = none
read_session codec decode secret now_ms (some header) =
    elim (find_cookie decode cookie_name (split_on b';' header)) [
      | none ↦ none
      | some raw ↦ if is_empty raw then none else verify_signed_token codec secret now_ms raw
    ]

-- The payload of a new session; `nonce` is random.
unfoldable pub new_session : Text → ℕ → ℕ → Text → SessionPayload
new_session address now_ms ttl nonce = record {
  address = normalize_address address;
  iat = int now_ms;
  exp = int (now_ms + ttl);
  n = nonce;
}

-- `remaining <= sessionTtlMs / 2`, that is `2 * exp <= 2 * now + ttl`, for a whole `exp`, as every
-- signed one is.
abbrev pub is_worn : Num → ℕ → ℕ → Bool
is_worn nonfinite now_ms ttl = false
is_worn minus_infinity now_ms ttl = true
is_worn (real (pos n) exact) now_ms ttl = leb (2 * n) (2 * now_ms + ttl)
is_worn (real (negsuc n) exact) now_ms ttl = true

unfoldable pub maybe_refresh_session : SessionPayload → ℕ → ℕ → Text → SessionPayload
unfolding new_session
maybe_refresh_session session now_ms ttl nonce =
    if is_worn session.exp now_ms ttl then new_session session.address now_ms ttl nonce else session
