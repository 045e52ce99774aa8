-- ===== src/Examples/Auth.antt =====
-- A user who signs in, a desktop that is paired with a phone, and a session token.
use steakout.Prelude.{
  ◌+◌, is_empty, ℕ, ◌≡◌, ◌≤◌, refl, ◌++◌, Text, text, true, false, Option, none, some, List, [],
  ◌∷◌, arith,
}
use steakout.Prelude.Js.{at, int}
use steakout.Addresses.{normalize_address, is_valid_nimiq_address}
use steakout.Api.{ok, err, ApiError}
use steakout.Json.{string, absent, trimmed_string}
use steakout.Auth.Challenge.{
  ChallengeRow, ChallengeDb, Keys, VerifyBody, post_challenge, post_verify,
}
use steakout.Auth.Challenge.Laws.{IsProven, verify_sound}
use steakout.Auth.Pairing.{
  PairingRow, PairReply, approved, post_pair, post_approve, post_claim, get_pairing,
  desktop_pair_ttl_ms,
}
use steakout.Auth.Pairing.Protocol.{approved_for}
use steakout.Auth.Pairing.Claims.{IsReady, claim_sound}
use steakout.Auth.Pairing.Journey.{approved_is_claimed}
use steakout.Auth.Requests.{
  AuthDb, challenged, idle, Follows, challenge_once, Serves-Follows, claim_once, claimed,
}
use steakout.Auth.Session.{
  SessionPayload, Codec, strip_padding, repeat, sign_payload, verify_signed_token,
}
use steakout.Auth.Session.Laws.{IsAuthentic, token-IsAuthentic}
use steakout.Auth.Session.RoundTrip.{IsPadded, session_json, verify-sign}
use steakout.Examples.Data.{alice, alice_normal}

abbrev keys : Keys
keys = record {
  verify = λ message key signature. some true;
  user_friendly_address = λ key. some alice;
}

abbrev challenge : ChallengeRow
challenge = record {
  id = text "c";
  address = alice_normal;
  message = text "m";
  expires_at = at 2000;
  used_at = none;
}

abbrev signing : ChallengeDb
signing = record { challenges = challenge ∷ []; users = [] }

abbrev body : VerifyBody
body = record {
  challenge_id = string (text "c");
  signature = string (text "5e");
  public_key = string (text "ab");
  private_key = absent;
  seed_phrase = absent;
  seed = absent;
}

signed_in : (post_verify keys 1000 signing body).0 ≡ ok alice_normal
unfolding post_verify trimmed_string steakout.Prelude.trim steakout.Prelude.text_eq
    normalize_address steakout.Addresses.to_upper
signed_in = refl

verify_sound_example : IsProven keys 1000 signing body alice_normal
verify_sound_example = verify_sound keys 1000 signing body alice_normal signed_in

abbrev pairing : PairingRow
pairing = record {
  id = text "p";
  status = approved;
  address = some alice_normal;
  expires_at = at 2000;
}

abbrev db : AuthDb
db = record { signing = signing; pairings = pairing ∷ [] }

abbrev after_verify : AuthDb
after_verify = record db { signing = (post_verify keys 1000 signing body).1 }

-- After the sign-in somebody asks for another challenge.
abbrev after_challenge : AuthDb
after_challenge = record after_verify {
  signing = (post_challenge 1100 (text "d") 500 after_verify.signing (string alice)).1;
}

challenge_once_example :
    (e : ApiError) × (post_verify keys 1200 after_challenge.signing body
      ≡ (err e, after_challenge.signing))
challenge_once_example =
    challenge_once keys keys 1000 1200 db after_challenge body body alice_normal signed_in
      (challenged after_verify 1100 (text "d") 500 (string alice)) refl

found : get_pairing (text "p") db.pairings ≡ some pairing
unfolding get_pairing steakout.Prelude.text_eq
found = refl

Serves-Follows_example :
    Follows
      (post_claim 1500 db.pairings (string (text "p"))).1
      (text "p")
      (approved_for alice_normal)
Serves-Follows_example =
    Serves-Follows (text "p") pairing (claimed db 1500 (string (text "p"))) found

claimed_p : (post_claim 1500 db.pairings (string (text "p"))).0 ≡ ok alice_normal
unfolding post_claim trimmed_string steakout.Prelude.trim steakout.Prelude.text_eq normalize_address
    steakout.Addresses.to_upper
claimed_p = refl

claim_sound_example : IsReady 1500 db.pairings (text "p") alice_normal
unfolding trimmed_string steakout.Prelude.trim
claim_sound_example = claim_sound 1500 db.pairings (string (text "p")) alice_normal claimed_p

abbrev after_claim : AuthDb
after_claim = record db { pairings = (post_claim 1500 db.pairings (string (text "p"))).1 }

claim_once_example :
    (e : ApiError) × ((post_claim 1600 after_claim.pairings (string (text "p"))).0 ≡ err e)
claim_once_example =
    claim_once 1500 1600 db after_claim (string (text "p")) (string (text "p")) alice_normal
      claimed_p (idle after_claim) refl

abbrev reply : PairReply
reply = record { pair_id = text "q"; expires_at = at (1000 + desktop_pair_ttl_ms) }

made : (post_pair 1000 (text "q") db.pairings).0 ≡ ok reply
unfolding post_pair steakout.Prelude.text_eq
made = refl

named : trimmed_string (string (text "q")) ≡ text "q"
unfolding trimmed_string steakout.Prelude.trim
named = refl

full : is_empty (normalize_address alice) ≡ false
unfolding normalize_address steakout.Prelude.is_space
full = refl

early : 2000 ≤ 1000 + desktop_pair_ttl_ms
early = omega arith

late : 3000 ≤ 1000 + desktop_pair_ttl_ms
late = omega arith

approved_is_claimed_example :
    (post_claim 3000
      (post_approve 2000 (post_pair 1000 (text "q") db.pairings).1 alice (string (text "q"))).1
      (string (text "q"))).0
    ≡ ok (normalize_address alice)
approved_is_claimed_example =
    approved_is_claimed 1000 2000 3000 (text "q") alice db.pairings (string (text "q")) reply made
      named refl full early late

abbrev payload : SessionPayload
payload = record { address = alice_normal; iat = int 1000; exp = int 2000; n = text "0f" }

-- An encoding of three units by four, with one unit of padding.
abbrev codec : Codec
codec = record {
  stringify = λ p. text "e30";
  parse_json = λ t. some (session_json payload);
  base64 = λ t. t ++ text "=";
  from_base64 = strip_padding;
  hmac = λ secret t. text "a/c";
}

body-IsPadded : IsPadded codec (text "e30")
unfolding strip_padding repeat
body-IsPadded = record {
  core = text "e30";
  padding = 1;
  shape = refl;
  short = omega arith;
  whole = refl;
  filled = refl;
  plain = refl;
  decodes = refl;
}

sig-IsPadded : IsPadded codec (text "a/c")
unfolding strip_padding repeat
sig-IsPadded = record {
  core = text "a/c";
  padding = 1;
  shape = refl;
  short = omega arith;
  whole = refl;
  filled = refl;
  plain = refl;
  decodes = refl;
}

valid_alice : is_valid_nimiq_address (some alice_normal) ≡ true
unfolding is_valid_nimiq_address steakout.Prelude.trim steakout.Addresses.has_address_shape
    normalize_address steakout.Addresses.to_upper
valid_alice = refl

normal_alice : normalize_address alice_normal ≡ alice_normal
unfolding normalize_address steakout.Prelude.is_space steakout.Addresses.to_upper
normal_alice = refl

verify-sign_example :
    verify_signed_token codec (text "secret") 1500 (sign_payload codec payload (text "secret"))
    ≡ some payload
verify-sign_example =
    verify-sign codec (text "secret") 1500 payload body-IsPadded sig-IsPadded refl valid_alice
      normal_alice refl

token-IsAuthentic_example :
    IsAuthentic codec (text "secret") 1500 (sign_payload codec payload (text "secret")) payload
token-IsAuthentic_example =
    token-IsAuthentic codec (text "secret") 1500 (sign_payload codec payload (text "secret"))
      payload verify-sign_example
