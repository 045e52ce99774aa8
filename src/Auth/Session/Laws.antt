-- ===== src/Auth/Session/Laws.antt =====
-- Tokens of server/src/auth.ts that are accepted.
use steakout.Prelude.{
  ℕ, ◌≡◌, refl, ◌∙◌, Text, text_eq, text_eq_iff, is_empty, split_on, Bool, true, false, not, ◌||◌,
  Option, none, some, List, [], ◌∷◌, if◌then◌else◌, arith,
}
use mathlib.Core.Path.{subst}
use mathlib.Core.Option.{some-injective}
use steakout.Addresses.{is_valid_nimiq_address}
use steakout.Addresses.Laws.{is_valid_normalize}
use steakout.Json.{Value, string, number, object}
use steakout.Auth.Session.{
  SessionPayload, Codec, from_b64url, is_before, session_of_fields, session_of_json, verify_parts,
  verify_of, verify_signed_token,
}

-- What a token that is accepted holds: a body and the HMAC of that body under the secret, a valid
-- address in normal form, and an expiry that has not passed.
pub record IsAuthentic (codec : Codec) (secret : Text) (now_ms : ℕ) (token : Text)
    (p : SessionPayload) : Type 0 where
  pub body : Text
  pub sig : Text
  pub parts : split_on b'.' token ≡ body ∷ sig ∷ []
  pub authentic : from_b64url codec sig ≡ codec.hmac secret body
  pub valid : is_valid_nimiq_address (some p.address) ≡ true
  pub current : is_before p.exp now_ms ≡ false

unnegated : (b : Bool) → not b ≡ false → b ≡ true
unnegated true h = refl
unnegated false h = absurd (ground arith)

-- A result that is returned behind a test.
refused_first :
    (refused : Bool) (o : Option SessionPayload) (p : SessionPayload)
    → (if refused then none else o) ≡ some p
    → (refused ≡ false) × (o ≡ some p)
refused_first true o p h = absurd (ground arith)
refused_first false o p h = (refl, h)

or-false : (a b : Bool) → (a || b) ≡ false → (a ≡ false) × (b ≡ false)
or-false a b h = (ground arith, ground arith)

-- The fields that are accepted.
abbrev Holds : ℕ → SessionPayload → Type 0
Holds now_ms p = (is_valid_nimiq_address (some p.address) ≡ true) × (is_before p.exp now_ms ≡ false)

fields-ok :
    (now_ms : ℕ) (a e i n : Value) (p : SessionPayload)
    → session_of_fields now_ms a e i n ≡ some p
    → Holds now_ms p
unfolding session_of_fields
fields-ok now_ms (string a) (number e) (number i) n p h =
    let (open_gate, same) = refused_first _ _ p h in
    let (valid, current) =
      or-false (not (is_valid_nimiq_address (some a))) (is_before e now_ms) open_gate in
    subst (λ q. Holds now_ms q) (some-injective _ p same)
      (is_valid_normalize a ∙ ground arith, current)
fields-ok now_ms _ _ _ n p h = absurd (ground arith)

json-ok :
    (now_ms : ℕ) (json : Option Value) (p : SessionPayload)
    → session_of_json now_ms json ≡ some p
    → Holds now_ms p
unfolding session_of_json
json-ok now_ms (some (object f)) p h = fields-ok now_ms _ _ _ _ p h
json-ok now_ms _ p h = absurd (ground arith)

module _ (codec : Codec) (secret : Text) (now_ms : ℕ) where
  parts-ok :
      (body sig : Text) (p : SessionPayload)
      → verify_parts codec secret now_ms body sig ≡ some p
      → (from_b64url codec sig ≡ codec.hmac secret body) × Holds now_ms p
  unfolding verify_parts
  parts-ok body sig p h =
      let (_, matched) = refused_first (is_empty body || is_empty sig) _ p h in
      let (same, checked) =
        refused_first (not (text_eq (from_b64url codec sig) (codec.hmac secret body))) _ p
          matched in
      (
        (text_eq_iff (from_b64url codec sig) (codec.hmac secret body)).0 (unnegated _ same),
        json-ok now_ms _ p checked,
      )

  split-ok :
      (parts : List Text) (p : SessionPayload)
      → verify_of codec secret now_ms parts ≡ some p
      → (body : Text) × (sig : Text) × (parts ≡ body ∷ sig ∷ [])
        × ((from_b64url codec sig ≡ codec.hmac secret body) × Holds now_ms p)
  unfolding verify_of
  split-ok (body ∷ sig ∷ []) p h = (body, sig, refl, parts-ok body sig p h)
  split-ok _ p h = absurd (ground arith)

  -- A token that is accepted has two parts, of which the second is the HMAC of the first under the
  -- secret, and it gives a valid address and an expiry that has not passed.
  pub token-IsAuthentic :
      (token : Text) (p : SessionPayload)
      → verify_signed_token codec secret now_ms token ≡ some p
      → IsAuthentic codec secret now_ms token p
  unfolding verify_signed_token
  token-IsAuthentic token p h =
      let (body, sig, parts, (authentic, (valid, current))) = split-ok (split_on b'.' token) p h in
      record {
        body = body;
        sig = sig;
        parts = parts;
        authentic = authentic;
        valid = valid;
        current = current;
      }
