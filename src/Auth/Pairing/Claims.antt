-- ===== src/Auth/Pairing/Claims.antt =====
-- What a claim of a pairing (server/src/auth.ts) rests on, and the way from a new pairing to a claim.
use steakout.Prelude.{
  ℕ, ◌≡◌, ◌≤◌, refl, ap, ◌∙◌, Text, text_eq, is_empty, Bool, true, false, not, Option, none, some,
  List, find-holds, find-update, set_found, if◌then◌else◌, Bool-cases, inl, inr, arith,
}
use steakout.Prelude.Js.{Iso, at, malformed, parse_date, iso_rank}
use steakout.Addresses.{normalize_address}
use steakout.Api.{Result, ok, err, ApiError, invalid}
use steakout.Json.{Value, trimmed_string}
use steakout.Auth.Challenge.{is_current}
use steakout.Auth.Pairing.{
  PairingStatus, waiting, approved, claimed, expired, unknown, PairingRow, get_pairing, is_approved,
  expire_pairing, is_claimable, set_claimed, ready_address, finish_claim, claim_row, post_claim,
}
use steakout.Auth.Pairing.Protocol.{
  Phase, claimed_for, approved_for, spent_by_time, phase, phase_of_parts,
}

-- The phases in which a pairing gives no session any more.
abbrev pub is_spent : Phase → Bool
is_spent (claimed_for a) = true
is_spent spent_by_time = true
is_spent _ = false

-- A pairing that can be claimed now, and the address it was approved for.
pub record IsReady (now_ms : ℕ) (rows : List PairingRow) (id address : Text) : Type 0 where
  pub row : PairingRow
  pub expires_at : ℕ
  pub owner : Text
  pub found : get_pairing id rows ≡ some row
  pub approved_for_owner : phase row ≡ approved_for owner
  pub expiry : parse_date row.expires_at ≡ some expires_at
  pub in_time : now_ms ≤ expires_at
  pub same : address ≡ normalize_address owner

finish-ok :
    (rows : List PairingRow) (id address : Text) (o : Option Text)
    → (finish_claim rows id o).0 ≡ ok address
    → (owner : Text) × (o ≡ some owner) × (address ≡ normalize_address owner)
unfolding finish_claim
finish-ok rows id address none h = absurd (ground arith)
finish-ok rows id address (some owner) h = (owner, refl, ground arith)

ready_phase :
    (status : PairingStatus) (address : Option Text) (owner : Text)
    → ready_address status address ≡ some owner
    → phase_of_parts status address ≡ approved_for owner
unfolding ready_address
ready_phase approved (some a) owner h = ap approved_for (ground arith)
ready_phase approved none owner h = absurd (ground arith)
ready_phase waiting a owner h = absurd (ground arith)
ready_phase claimed a owner h = absurd (ground arith)
ready_phase expired a owner h = absurd (ground arith)
ready_phase unknown a owner h = absurd (ground arith)

spent_unready :
    (status : PairingStatus) (address : Option Text)
    → is_spent (phase_of_parts status address) ≡ true
    → ready_address status address ≡ none
unfolding ready_address
spent_unready approved (some a) h = absurd (ground arith)
spent_unready approved none h = refl
spent_unready waiting a h = refl
spent_unready claimed a h = refl
spent_unready expired a h = refl
spent_unready unknown a h = refl

current_time :
    (e : Iso) (now_ms : ℕ)
    → is_current (parse_date e) now_ms ≡ true
    → (parse_date e ≡ some (iso_rank e)) × (now_ms ≤ iso_rank e)
current_time (at ms) now_ms h = (refl, ground arith)
current_time (malformed r) now_ms h = absurd (ground arith)

lapsed_fails :
    (rows : List PairingRow) (id address : Text) (current : Bool)
    (o : Result Text × List PairingRow)
    → (if not current then (err invalid, expire_pairing id rows) else o).0 ≡ ok address
    → (current ≡ true) × (o.0 ≡ ok address)
lapsed_fails rows id address true o h = (refl, h)
lapsed_fails rows id address false o h = absurd (ground arith)

claim_row-ok :
    (now_ms : ℕ) (rows : List PairingRow) (id address : Text) (o : Option PairingRow)
    → get_pairing id rows ≡ o
    → (claim_row now_ms rows id o).0 ≡ ok address
    → IsReady now_ms rows id address
unfolding claim_row
claim_row-ok now_ms rows id address none f h = absurd (ground arith)
claim_row-ok now_ms rows id address (some row) f h =
    let (current, done) =
      lapsed_fails rows id address (is_current (parse_date row.expires_at) now_ms)
        (finish_claim rows id (ready_address row.status row.address)) h in
    let (owner, ready, same) = finish-ok rows id address _ done in
    let (expiry, in_time) = current_time row.expires_at now_ms current in
    record {
      row = row;
      expires_at = iso_rank row.expires_at;
      owner = owner;
      found = f;
      approved_for_owner = ready_phase row.status row.address owner ready;
      expiry = expiry;
      in_time = in_time;
      same = same;
    }

-- A claim succeeds only for a pairing that is approved and not expired, and signs in the address it
-- was approved for last.
pub claim_sound :
    (now_ms : ℕ) (rows : List PairingRow) (pair_id : Value) (address : Text)
    → (post_claim now_ms rows pair_id).0 ≡ ok address
    → IsReady now_ms rows (trimmed_string pair_id) address
unfolding post_claim
claim_sound now_ms rows pair_id address h =
    claim_row-ok now_ms rows (trimmed_string pair_id) address _ refl (ground arith)

pub spent_fails :
    (now_ms : ℕ) (rows : List PairingRow) (pair_id : Value) (row : PairingRow)
    → get_pairing (trimmed_string pair_id) rows ≡ some row
    → is_spent (phase row) ≡ true
    → (e : ApiError) × ((post_claim now_ms rows pair_id).0 ≡ err e)
unfolding post_claim claim_row finish_claim
spent_fails now_ms rows pair_id row f s = elim (Bool-cases (is_empty (trimmed_string pair_id))) [
  | inl e ↦ (invalid, rw e refl)
  | inr e ↦ elim (Bool-cases (is_current (parse_date row.expires_at) now_ms)) [
    | inl k ↦ (invalid, rw (e, f, k, spent_unready row.status row.address s) refl)
    | inr k ↦ (invalid, rw (e, f, k) refl)
  ]
]

finish_table :
    (rows : List PairingRow) (id address : Text) (o : Option Text)
    → (finish_claim rows id o).0 ≡ ok address
    → (finish_claim rows id o).1 ≡ (set_claimed id rows).0
unfolding finish_claim
finish_table rows id address none h = absurd (ground arith)
finish_table rows id address (some owner) h = ground arith

claim_row-table :
    (now_ms : ℕ) (rows : List PairingRow) (id address : Text) (o : Option PairingRow)
    → (claim_row now_ms rows id o).0 ≡ ok address
    → (claim_row now_ms rows id o).1 ≡ (set_claimed id rows).0
unfolding claim_row
claim_row-table now_ms rows id address none h = absurd (ground arith)
claim_row-table now_ms rows id address (some row) h =
    let (current, done) =
      lapsed_fails rows id address (is_current (parse_date row.expires_at) now_ms)
        (finish_claim rows id (ready_address row.status row.address)) h in
    rw current (finish_table rows id address _ done)

claim_table :
    (now_ms : ℕ) (rows : List PairingRow) (pair_id : Value) (address : Text)
    → (post_claim now_ms rows pair_id).0 ≡ ok address
    → (post_claim now_ms rows pair_id).1 ≡ (set_claimed (trimmed_string pair_id) rows).0
unfolding post_claim
claim_table now_ms rows pair_id address h = elim (Bool-cases (is_empty (trimmed_string pair_id))) [
  | inl e ↦ absurd (ground arith)
  | inr e ↦ rw e (claim_row-table now_ms rows (trimmed_string pair_id) address _ (ground arith))
]

approved_status :
    (status : PairingStatus) (address : Option Text) (owner : Text)
    → phase_of_parts status address ≡ approved_for owner
    → (is_approved status ≡ true) × (is_spent (phase_of_parts claimed address) ≡ true)
approved_status approved (some a) owner h = (refl, refl)
approved_status approved none owner h = absurd (ground arith)
approved_status waiting a owner h = absurd (ground arith)
approved_status claimed (some a) owner h = absurd (ground arith)
approved_status claimed none owner h = absurd (ground arith)
approved_status expired a owner h = absurd (ground arith)
approved_status unknown a owner h = absurd (ground arith)

claims_row :
    (row : PairingRow) (id : Text)
    → text_eq row.id id ≡ true
    → is_approved row.status ≡ true
    → set_found (is_claimable id) (λ r. record r { status = claimed }) (some row)
      ≡ some (record row { status = claimed })
unfolding is_claimable
claims_row row id mine h = rw (mine, h) refl

get-claimed :
    (id : Text) (rows : List PairingRow) (row : PairingRow)
    → get_pairing id rows ≡ some row
    → is_approved row.status ≡ true
    → get_pairing id (set_claimed id rows).0 ≡ some (record row { status = claimed })
unfolding get_pairing set_claimed
get-claimed id rows row f h =
    find-update (λ r. text_eq r.id id) (is_claimable id) _ rows (λ r. refl)
    ∙ rw f (claims_row row id (find-holds (λ r. text_eq r.id id) rows row f) h)

-- After a claim that succeeds the pairing is claimed.
pub claim_spends :
    (now_ms : ℕ) (rows : List PairingRow) (pair_id : Value) (address : Text)
    → (post_claim now_ms rows pair_id).0 ≡ ok address
    → (row : PairingRow) × (get_pairing (trimmed_string pair_id) (post_claim now_ms rows pair_id).1
        ≡ some row)
      × (is_spent (phase row) ≡ true)
claim_spends now_ms rows pair_id address h =
    let ready = claim_sound now_ms rows pair_id address h in
    let row = ready.row in
    let (status, spent) =
      approved_status row.status row.address ready.owner ready.approved_for_owner in
    (
      record row { status = claimed },
      rw (claim_table now_ms rows pair_id address h)
          (get-claimed (trimmed_string pair_id) rows row ready.found status),
      spent,
    )
