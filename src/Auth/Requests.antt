-- ===== src/Auth/Requests.antt =====
-- The requests of server/src/auth.ts in any order, and what no order of them allows.
use steakout.Prelude.{ℕ, ◌≡◌, refl, Text, true, some, List, arith}
use steakout.Api.{ok, err, ApiError}
use steakout.Json.{Value, trimmed_string}
use steakout.Auth.Challenge.{ChallengeDb, Keys, VerifyBody, post_challenge, post_verify}
use steakout.Auth.Challenge.Uses.{
  IsUsed, verify_uses, used_refused, verify-IsUsed, challenge-IsUsed,
}
use steakout.Auth.Pairing.{PairingRow, post_pair, get_pair, post_approve, post_claim, get_pairing}
use steakout.Auth.Pairing.Protocol.{
  Phase, phase, Step, stays, approves, approves_again, mends, claims, lapses, Moves,
  post_pair-Moves, get_pair-Moves, post_approve-Moves, post_claim-Moves,
}
use steakout.Auth.Pairing.Claims.{is_spent, claim_spends, spent_fails}

pub record AuthDb : Type 0 where
  pub signing : ChallengeDb
  pub pairings : List PairingRow

-- Any sequence of requests. They are answered one at a time, since no handler waits.
pub data Serves : AuthDb → AuthDb → Type 0 where
  idle : (db : AuthDb) → Serves db db
  andthen : {a b c : AuthDb} → Serves a b → Serves b c → Serves a c
  challenged :
      (db : AuthDb) (now_ms : ℕ) (fresh : Text) (ttl : ℕ) (address : Value)
      → Serves db (record db { signing = (post_challenge now_ms fresh ttl db.signing address).1 })
  verified :
      (db : AuthDb) (keys : Keys) (now_ms : ℕ) (body : VerifyBody)
      → Serves db (record db { signing = (post_verify keys now_ms db.signing body).1 })
  paired :
      (db : AuthDb) (now_ms : ℕ) (fresh : Text)
      → Serves db (record db { pairings = (post_pair now_ms fresh db.pairings).1 })
  looked :
      (db : AuthDb) (now_ms : ℕ) (param : Text)
      → Serves db (record db { pairings = (get_pair now_ms db.pairings param).1 })
  approved :
      (db : AuthDb) (now_ms : ℕ) (user : Text) (pair_id : Value)
      → Serves db (record db { pairings = (post_approve now_ms db.pairings user pair_id).1 })
  claimed :
      (db : AuthDb) (now_ms : ℕ) (pair_id : Value)
      → Serves db (record db { pairings = (post_claim now_ms db.pairings pair_id).1 })

Serves-IsUsed : {a b : AuthDb} (id : Text) → Serves a b → IsUsed a.signing id → IsUsed b.signing id
Serves-IsUsed id (idle db) u = u
Serves-IsUsed id (andthen r s) u = Serves-IsUsed id s (Serves-IsUsed id r u)
Serves-IsUsed id (challenged db now_ms fresh ttl address) u =
    challenge-IsUsed now_ms fresh ttl db.signing address id u
Serves-IsUsed id (verified db keys now_ms body) u = verify-IsUsed keys now_ms db.signing body id u
Serves-IsUsed id (paired db now_ms fresh) u = u
Serves-IsUsed id (looked db now_ms param) u = u
Serves-IsUsed id (approved db now_ms user pair_id) u = u
Serves-IsUsed id (claimed db now_ms pair_id) u = u

-- A challenge signs somebody in at most once: after it has, and whatever requests follow, every
-- attempt with the same challenge fails, with any signature and key, and changes nothing.
pub challenge_once :
    (keys keys' : Keys) (now_ms now_ms' : ℕ) (db later : AuthDb) (body body' : VerifyBody)
    (address : Text)
    → (post_verify keys now_ms db.signing body).0 ≡ ok address
    → Serves (record db { signing = (post_verify keys now_ms db.signing body).1 }) later
    → trimmed_string body'.challenge_id ≡ trimmed_string body.challenge_id
    → (e : ApiError) × (post_verify keys' now_ms' later.signing body' ≡ (err e, later.signing))
challenge_once keys keys' now_ms now_ms' db later body body' address won runs same =
    used_refused keys' now_ms' later.signing body' (
      rw same (
        Serves-IsUsed (trimmed_string body.challenge_id) runs
          (verify_uses keys now_ms db.signing body address won)))

-- Steps of the protocol, one after the other.
pub data Steps : Phase → Phase → Type 0 where
  stop : (p : Phase) → Steps p p
  go : {p q r : Phase} → Step p q → Steps q r → Steps p r

Steps-trans : {p q r : Phase} → Steps p q → Steps q r → Steps p r
Steps-trans (stop p) t = t
Steps-trans (go s rest) t = go s (Steps-trans rest t)

-- A pairing that is still there, some steps further.
pub record Follows (rows : List PairingRow) (id : Text) (from : Phase) : Type 0 where
  pub row : PairingRow
  pub found : get_pairing id rows ≡ some row
  pub steps : Steps from (phase row)

moved :
    (rows rows' : List PairingRow) (id : Text) (row : PairingRow)
    → Moves rows rows' id row
    → Follows rows' id (phase row)
moved rows rows' id row m = record { row = m.row'; found = m.found; steps = go m.step (stop _) }

-- The table of pairings implements the protocol: whatever requests are answered, every pairing stays
-- in the table and moves by steps of the protocol only.
pub Serves-Follows :
    {a b : AuthDb} (id : Text) (row : PairingRow)
    → Serves a b
    → get_pairing id a.pairings ≡ some row
    → Follows b.pairings id (phase row)
Serves-Follows id row (idle db) f = record { row = row; found = f; steps = stop (phase row) }
Serves-Follows id row (andthen r s) f =
    let half = Serves-Follows id row r f in
    let whole = Serves-Follows id half.row s half.found in
    record { row = whole.row; found = whole.found; steps = Steps-trans half.steps whole.steps }
Serves-Follows id row (challenged db now_ms fresh ttl address) f = record {
  row = row;
  found = f;
  steps = stop (phase row);
}
Serves-Follows id row (verified db keys now_ms body) f = record {
  row = row;
  found = f;
  steps = stop (phase row);
}
Serves-Follows id row (paired db now_ms fresh) f =
    moved _ _ id row (post_pair-Moves db.pairings id row f now_ms fresh)
Serves-Follows id row (looked db now_ms param) f =
    moved _ _ id row (get_pair-Moves db.pairings id row f now_ms param)
Serves-Follows id row (approved db now_ms user pair_id) f =
    moved _ _ id row (post_approve-Moves db.pairings id row f now_ms user pair_id)
Serves-Follows id row (claimed db now_ms pair_id) f =
    moved _ _ id row (post_claim-Moves db.pairings id row f now_ms pair_id)

Step-spent : {p q : Phase} → Step p q → is_spent p ≡ true → is_spent q ≡ true
Step-spent (stays p) h = h
Step-spent (approves a) h = absurd (ground arith)
Step-spent (approves_again a b) h = absurd (ground arith)
Step-spent (mends a) h = absurd (ground arith)
Step-spent (claims a) h = refl
Step-spent (lapses p) h = refl

Steps-spent : {p q : Phase} → Steps p q → is_spent p ≡ true → is_spent q ≡ true
Steps-spent (stop p) h = h
Steps-spent (go s rest) h = Steps-spent rest (Step-spent s h)

-- A pairing gives at most one session: after a claim has succeeded, and whatever requests follow,
-- every claim of the same pairing fails.
pub claim_once :
    (now_ms now_ms' : ℕ) (db later : AuthDb) (pair_id pair_id' : Value) (address : Text)
    → (post_claim now_ms db.pairings pair_id).0 ≡ ok address
    → Serves (record db { pairings = (post_claim now_ms db.pairings pair_id).1 }) later
    → trimmed_string pair_id' ≡ trimmed_string pair_id
    → (e : ApiError) × ((post_claim now_ms' later.pairings pair_id').0 ≡ err e)
claim_once now_ms now_ms' db later pair_id pair_id' address won runs same =
    let (row, found, spent) = claim_spends now_ms db.pairings pair_id address won in
    let after = Serves-Follows (trimmed_string pair_id) row runs found in
    spent_fails now_ms' later.pairings pair_id' after.row (rw same after.found)
      (Steps-spent after.steps spent)
