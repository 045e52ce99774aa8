-- ===== src/Auth/Pairing/Protocol.antt =====
-- The protocol of a pairing, in the abstract, and each handler's effect on a row as a step of it.
use steakout.Prelude.{
  ℕ, ◌≡◌, refl, ap, ◌∙◌, Text, text_eq, trim, is_empty, Bool, true, ◌&&◌, Option, none, some, List,
  any, update_rows, set_row, set_found, found_or, find-update, find-append, Bool-cases, inl, inr,
  ◌==◌, arith,
}
use steakout.Prelude.Js.{parse_date}
use steakout.Addresses.{normalize_address}
use steakout.Json.{Value, trimmed_string}
use steakout.Auth.Challenge.{is_current}
use steakout.Auth.Pairing.{
  PairingStatus, waiting, approved, claimed, expired, unknown, PairingRow, post_pair, get_pairing,
  is_open, is_approved, expire_pairing, expire_open, show_pairing, get_pair, set_approved,
  approve_row, post_approve, is_claimable, set_claimed, ready_address, finish_claim, claim_row,
  post_claim,
}

-- Where a pairing stands. `broken` is what the code never writes.
pub data Phase : Type 0 where
  is_waiting spent_by_time broken : Phase
  approved_for claimed_for : Text → Phase

abbrev pub phase_of_parts : PairingStatus → Option Text → Phase
phase_of_parts waiting a = is_waiting
phase_of_parts approved (some a) = approved_for a
phase_of_parts approved none = broken
phase_of_parts claimed (some a) = claimed_for a
phase_of_parts claimed none = broken
phase_of_parts expired a = spent_by_time
phase_of_parts unknown a = broken

abbrev pub phase : PairingRow → Phase
phase row = phase_of_parts row.status row.address

-- The protocol: a pairing is approved while it waits, approved anew until it is claimed, claimed for
-- the address it was approved for last, and may lapse at any time.
pub data Step : Phase → Phase → Type 0 where
  stays : (p : Phase) → Step p p
  approves : (a : Text) → Step is_waiting (approved_for a)
  approves_again : (a b : Text) → Step (approved_for a) (approved_for b)
  mends : (a : Text) → Step broken (approved_for a)
  claims : (a : Text) → Step (approved_for a) (claimed_for a)
  lapses : (p : Phase) → Step p spent_by_time

-- A pairing is still there, one step further.
pub record Moves (rows rows' : List PairingRow) (id : Text) (row : PairingRow) : Type 0 where
  pub row' : PairingRow
  pub found : get_pairing id rows' ≡ some row'
  pub step : Step (phase row) (phase row')

same-Moves :
    (rows : List PairingRow) (id : Text) (row : PairingRow)
    → get_pairing id rows ≡ some row
    → Moves rows rows id row
same-Moves rows id row f = record { row' = row; found = f; step = stays (phase row) }

set_row-Step :
    (p : PairingRow → Bool) (g : PairingRow → PairingRow) (row : PairingRow)
    → ((r : PairingRow) → p r ≡ true → Step (phase r) (phase (g r)))
    → Step (phase row) (phase (set_row p g row))
set_row-Step p g row h = elim (Bool-cases (p row)) [
  | inl e ↦ rw e (h row e)
  | inr e ↦ rw e (stays (phase row))
]

update-Moves :
    (p : PairingRow → Bool) (g : PairingRow → PairingRow) (rows : List PairingRow) (id : Text)
    (row : PairingRow)
    → ((r : PairingRow) → text_eq (g r).id id ≡ text_eq r.id id)
    → ((r : PairingRow) → p r ≡ true → Step (phase r) (phase (g r)))
    → get_pairing id rows ≡ some row
    → Moves rows (update_rows p g rows) id row
unfolding get_pairing
update-Moves p g rows id row key h f = record {
  row' = set_row p g row;
  found = find-update (λ r. text_eq r.id id) p g rows key ∙ ap (set_found p g) f;
  step = set_row-Step p g row h;
}

approve-Step :
    (a : Text) (status : PairingStatus) (address : Option Text)
    → is_open status ≡ true
    → Step (phase_of_parts status address) (approved_for a)
approve-Step a waiting address h = approves a
approve-Step a approved (some b) h = approves_again b a
approve-Step a approved none h = mends a
approve-Step a claimed address h = absurd (ground arith)
approve-Step a expired address h = absurd (ground arith)
approve-Step a unknown address h = absurd (ground arith)

claim-Step :
    (status : PairingStatus) (address : Option Text)
    → is_approved status ≡ true
    → Step (phase_of_parts status address) (phase_of_parts claimed address)
claim-Step approved (some b) h = claims b
claim-Step approved none h = stays broken
claim-Step waiting address h = absurd (ground arith)
claim-Step claimed address h = absurd (ground arith)
claim-Step expired address h = absurd (ground arith)
claim-Step unknown address h = absurd (ground arith)

and_right : (a b : Bool) → (a && b) ≡ true → b ≡ true
and_right a b h = ground arith

module _ (rows : List PairingRow) (id : Text) (row : PairingRow)
    (f : get_pairing id rows ≡ some row) where
  expire-Moves : (key : Text) → Moves rows (expire_pairing key rows) id row
  unfolding expire_pairing
  expire-Moves key = update-Moves _ _ rows id row (λ r. refl) (λ r h. lapses (phase r)) f

  expire_open-Moves : (key : Text) → Moves rows (expire_open key rows) id row
  unfolding expire_open
  expire_open-Moves key = update-Moves _ _ rows id row (λ r. refl) (λ r h. lapses (phase r)) f

  approved-Moves : (key user : Text) → Moves rows (set_approved key user rows) id row
  unfolding set_approved
  approved-Moves key user =
      update-Moves _ _ rows id row (λ r. refl)
        (λ r h.
          approve-Step user r.status r.address (and_right (text_eq r.id key) (is_open r.status) h))
        f

  claimed-Moves : (key : Text) → Moves rows (set_claimed key rows).0 id row
  unfolding set_claimed is_claimable
  claimed-Moves key =
      update-Moves _ _ rows id row (λ r. refl)
        (λ r h.
          claim-Step r.status r.address (and_right (text_eq r.id key) (is_approved r.status) h))
        f

  pub post_pair-Moves :
      (now_ms : ℕ) (fresh : Text) → Moves rows (post_pair now_ms fresh rows).1 id row
  unfolding post_pair get_pairing
  post_pair-Moves now_ms fresh = elim (Bool-cases (any (λ r. text_eq r.id fresh) rows)) [
    | inl e ↦ rw e (same-Moves rows id row f)
    | inr e ↦ rw e (record {
      row' = row;
      found = find-append (λ r. text_eq r.id id) rows _ ∙ ap (found_or _) f;
      step = stays (phase row);
    })
  ]

  show-Moves :
      (now_ms : ℕ) (key : Text) (o : Option PairingRow)
      → Moves rows (show_pairing now_ms rows key o).1 id row
  unfolding show_pairing
  show-Moves now_ms key none = same-Moves rows id row f
  show-Moves now_ms key (some r) = elim (Bool-cases (is_current (parse_date r.expires_at) now_ms)) [
    | inl e ↦ rw e (same-Moves rows id row f)
    | inr e ↦ elim (Bool-cases (is_open r.status)) [
      | inl k ↦ rw (e, k) (expire_open-Moves key)
      | inr k ↦ rw (e, k) (same-Moves rows id row f)
    ]
  ]

  -- A look at a pairing moves it by a step of the protocol.
  pub get_pair-Moves :
      (now_ms : ℕ) (param : Text) → Moves rows (get_pair now_ms rows param).1 id row
  unfolding get_pair
  get_pair-Moves now_ms param = elim (Bool-cases (is_empty (trim param))) [
    | inl e ↦ rw e (same-Moves rows id row f)
    | inr e ↦ rw e (show-Moves now_ms (trim param) _)
  ]

  approve_row-Moves :
      (now_ms : ℕ) (user key : Text) (o : Option PairingRow)
      → Moves rows (approve_row now_ms rows user key o).1 id row
  unfolding approve_row
  approve_row-Moves now_ms user key none = same-Moves rows id row f
  approve_row-Moves now_ms user key (some r) =
      elim (Bool-cases (is_current (parse_date r.expires_at) now_ms)) [
        | inr e ↦ rw e (expire-Moves key)
        | inl e ↦ elim (Bool-cases (is_open r.status)) [
          | inl k ↦ rw (e, k) (approved-Moves key (normalize_address user))
          | inr k ↦ rw (e, k) (same-Moves rows id row f)
        ]
      ]

  -- So does an approval.
  pub post_approve-Moves :
      (now_ms : ℕ) (user : Text) (pair_id : Value)
      → Moves rows (post_approve now_ms rows user pair_id).1 id row
  unfolding post_approve
  post_approve-Moves now_ms user pair_id = elim (Bool-cases (is_empty (trimmed_string pair_id))) [
    | inl e ↦ rw e (same-Moves rows id row f)
    | inr e ↦ rw e (approve_row-Moves now_ms user (trimmed_string pair_id) _)
  ]

  finish-Moves : (key : Text) (o : Option Text) → Moves rows (finish_claim rows key o).1 id row
  unfolding finish_claim
  finish-Moves key none = same-Moves rows id row f
  finish-Moves key (some a) = elim (Bool-cases ((set_claimed key rows).1 == 1)) [
    | inl e ↦ rw e (claimed-Moves key)
    | inr e ↦ rw e (claimed-Moves key)
  ]

  claim_row-Moves :
      (now_ms : ℕ) (key : Text) (o : Option PairingRow)
      → Moves rows (claim_row now_ms rows key o).1 id row
  unfolding claim_row
  claim_row-Moves now_ms key none = same-Moves rows id row f
  claim_row-Moves now_ms key (some r) =
      elim (Bool-cases (is_current (parse_date r.expires_at) now_ms)) [
        | inr e ↦ rw e (expire-Moves key)
        | inl e ↦ rw e (finish-Moves key (ready_address r.status r.address))
      ]

  -- And a claim.
  pub post_claim-Moves :
      (now_ms : ℕ) (pair_id : Value) → Moves rows (post_claim now_ms rows pair_id).1 id row
  unfolding post_claim
  post_claim-Moves now_ms pair_id = elim (Bool-cases (is_empty (trimmed_string pair_id))) [
    | inl e ↦ rw e (same-Moves rows id row f)
    | inr e ↦ rw e (claim_row-Moves now_ms (trimmed_string pair_id) _)
  ]
