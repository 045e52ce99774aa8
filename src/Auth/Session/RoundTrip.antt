-- ===== src/Auth/Session/RoundTrip.antt =====
-- Tokens of server/src/auth.ts that are signed and then verified.
use steakout.Prelude.{
  ℕ, zero, suc, ◌+◌, ◌-◌, ◌%◌, ◌≡◌, ◌<◌, refl, sym, ap, ◌∙◌, Text, text, text_eq, text_eq_refl,
  is_empty, split_on, split_on-append, has_unit, Bool, true, false, not, ◌||◌, some, [], ◌∷◌, ◌++◌,
  map, length, ◌==◌, if◌then◌else◌, all, arith,
}
use steakout.Addresses.{normalize_address, is_valid_nimiq_address}
use steakout.Json.{Value, string, number, object, get_field, field, end}
use steakout.Auth.Session.{
  SessionPayload, Codec, to_url_unit, of_url_unit, strip_padding, repeat, b64url, from_b64url,
  sign_payload, is_before, session_of_fields, session_of_json, verify_parts, verify_of,
  verify_signed_token,
}

abbrev is_base64_unit : ℕ → Bool
is_base64_unit c = not ((c == b'=') || (c == b'-') || (c == b'_') || (c == b'.'))

-- What base64 makes of some bytes: a text that is not empty, in the alphabet of base64, padded to a
-- multiple of four units, which is decoded to the same bytes.
pub record IsPadded (codec : Codec) (bytes : Text) : Type 0 where
  pub core : Text
  pub padding : ℕ
  pub shape : codec.base64 bytes ≡ core ++ repeat b'=' padding
  pub short : padding < 4
  pub whole : (length core + padding) % 4 ≡ 0
  pub filled : is_empty core ≡ false
  pub plain : all is_base64_unit core ≡ true
  pub decodes : codec.from_base64 (codec.base64 bytes) ≡ bytes

strip-repeat : (k : ℕ) → strip_padding (repeat b'=' k) ≡ []
unfolding strip_padding repeat
strip-repeat zero = refl
strip-repeat (suc k) = rw (strip-repeat k) refl

-- In the alphabet of tokens the padding goes, and nothing else.
strip_url :
    (core : Text) (k : ℕ)
    → all is_base64_unit core ≡ true
    → strip_padding (map to_url_unit (core ++ repeat b'=' k)) ≡ map to_url_unit core
unfolding strip_padding repeat
strip_url [] zero h = refl
strip_url [] (suc k) h = rw (strip_url [] k refl) refl
strip_url (x ∷ xs) k h =
    let other : (to_url_unit x == b'=') ≡ false = ground arith in
    rw (strip_url xs k (ground arith)) (strip_one (map to_url_unit xs) other)
  where
    strip_one :
        {y : ℕ} (ys : Text)
        → (y == b'=') ≡ false
        → elim ys [ [] ↦ if y == b'=' then [] else y ∷ [] | z ∷ zs ↦ y ∷ z ∷ zs ] ≡ y ∷ ys
    strip_one [] e = rw e refl
    strip_one (z ∷ zs) e = refl

of_url-to_url :
    (core : Text) → all is_base64_unit core ≡ true → map of_url_unit (map to_url_unit core) ≡ core
of_url-to_url [] h = refl
of_url-to_url (x ∷ xs) h =
    let head : of_url_unit (to_url_unit x) ≡ x = ground arith in
    rw (head, of_url-to_url xs (ground arith)) refl

url_units-length : (core : Text) → length (map to_url_unit core) ≡ length core
url_units-length [] = refl
url_units-length (x ∷ xs) = ap suc (url_units-length xs)

no_dot :
    (core : Text) → all is_base64_unit core ≡ true → has_unit b'.' (map to_url_unit core) ≡ false
no_dot [] h = refl
no_dot (x ∷ xs) h =
    let other : (to_url_unit x == b'.') ≡ false = ground arith in
    rw (other, no_dot xs (ground arith)) refl

url_filled : (core : Text) → is_empty core ≡ false → is_empty (map to_url_unit core) ≡ false
url_filled [] h = h
url_filled (x ∷ xs) h = refl

missing_padding : (n k : ℕ) → k < 4 → (n + k) % 4 ≡ 0 → (if n % 4 == 0 then 0 else 4 - n % 4) ≡ k
missing_padding n k short whole = ground arith

module _ (codec : Codec) (bytes : Text) (padded : IsPadded codec bytes) where
  b64url-core : b64url codec bytes ≡ map to_url_unit padded.core
  unfolding b64url
  b64url-core = rw padded.shape (strip_url padded.core padded.padding padded.plain)

  from_b64url-b64url : from_b64url codec (b64url codec bytes) ≡ bytes
  unfolding from_b64url
  from_b64url-b64url =
      rw
        (
          b64url-core,
          from_b64url,
          url_units-length padded.core,
          of_url-to_url padded.core padded.plain,
          missing_padding (length padded.core) padded.padding padded.short padded.whole,
          sym padded.shape,
        )
        padded.decodes

-- The object that `JSON.stringify` writes for a payload.
abbrev pub session_json : SessionPayload → Value
session_json p = object (
    field (text "address") (string p.address) (
      field (text "iat") (number p.iat)
        (field (text "exp") (number p.exp) (field (text "n") (string p.n) end))))

module _ (codec : Codec) (secret : Text) (now_ms : ℕ) (p : SessionPayload) where
  accept_fields :
      is_valid_nimiq_address (some p.address) ≡ true
      → normalize_address p.address ≡ p.address
      → is_before p.exp now_ms ≡ false
      → session_of_json now_ms (some (session_json p)) ≡ some p
  unfolding session_of_json session_of_fields get_field text_eq
  accept_fields valid normal current = rw (valid, current, normal) refl

  accept_parts :
      (body sig : Text)
      → is_empty body ≡ false
      → is_empty sig ≡ false
      → from_b64url codec sig ≡ codec.hmac secret body
      → session_of_json now_ms (codec.parse_json (from_b64url codec body)) ≡ some p
      → verify_parts codec secret now_ms body sig ≡ some p
  unfolding verify_parts
  accept_parts body sig body_filled sig_filled same checked =
      rw
        (
          body_filled,
          sig_filled,
          ap (text_eq (from_b64url codec sig)) (sym same),
          text_eq_refl (from_b64url codec sig),
        )
        checked

-- A signed payload is accepted again: where base64 pads and decodes both of its parts, JSON is read
-- back, the address is valid and in normal form, and the expiry has not passed.
pub verify-sign :
    (codec : Codec) (secret : Text) (now_ms : ℕ) (p : SessionPayload)
    → IsPadded codec (codec.stringify p)
    → IsPadded codec (codec.hmac secret (b64url codec (codec.stringify p)))
    → codec.parse_json (codec.stringify p) ≡ some (session_json p)
    → is_valid_nimiq_address (some p.address) ≡ true
    → normalize_address p.address ≡ p.address
    → is_before p.exp now_ms ≡ false
    → verify_signed_token codec secret now_ms (sign_payload codec p secret) ≡ some p
unfolding verify_signed_token sign_payload verify_of
verify-sign codec secret now_ms p body sig read valid normal current =
    let signature = b64url codec (codec.hmac secret (b64url codec (codec.stringify p))) in
    let body_core = b64url-core codec (codec.stringify p) body in
    let sig_core = b64url-core codec (codec.hmac secret (b64url codec (codec.stringify p))) sig in
    let parts : split_on b'.' (b64url codec (codec.stringify p) ++ b'.' ∷ signature)
        ≡ b64url codec (codec.stringify p) ∷ signature ∷ [] =
      split_on-append b'.' _ _ (ap (has_unit b'.') body_core ∙ no_dot body.core body.plain)
        (ap (has_unit b'.') sig_core ∙ no_dot sig.core sig.plain) in
    ap (verify_of codec secret now_ms) parts
    ∙ accept_parts codec secret now_ms p _ signature
        (ap is_empty body_core ∙ url_filled body.core body.filled)
        (ap is_empty sig_core ∙ url_filled sig.core sig.filled) (from_b64url-b64url codec _ sig)
        (ap (λ t. session_of_json now_ms (codec.parse_json t)) (from_b64url-b64url codec _ body)
          ∙ ap (session_of_json now_ms) read
          ∙ accept_fields codec secret now_ms p valid normal current)
