-- ===== src/Auth/Pairing/Journey.antt =====
-- A pairing from its creation over its approval to its claim (server/src/auth.ts).
use steakout.Prelude.{
  ℕ, ◌+◌, ◌≡◌, ◌≤◌, refl, ap, ◌∙◌, Text, text_eq, text_eq_refl, is_empty, Bool, true, false, some,
  List, [], ◌∷◌, ◌++◌, count, any, update_rows, Bool-cases, inl, inr, arith,
}
use steakout.Prelude.Js.{at}
use steakout.Addresses.{normalize_address}
use steakout.Addresses.Laws.{normalize_address_idem}
use steakout.Api.{ok}
use steakout.Json.{Value, trimmed_string}
use steakout.Auth.Challenge.{is_current}
use steakout.Auth.Pairing.{
  PairingRow, PairReply, new_pairing, post_pair, get_pairing, is_open, is_approved, set_approved,
  approve_row, post_approve, is_claimable, set_claimed, ready_address, finish_claim, claim_row,
  post_claim, desktop_pair_ttl_ms, approved,
}

module _ (id : Text) where
  abbrev owns : PairingRow → Bool
  owns row = text_eq row.id id

  -- The row of an id in a table that had none.
  find-new :
      (rows : List PairingRow) (row : PairingRow)
      → any owns rows ≡ false
      → owns row ≡ true
      → get_pairing id (rows ++ row ∷ []) ≡ some row
  unfolding get_pairing
  find-new [] row n h = rw h refl
  find-new (r ∷ rows) row n h = ground (arith, find-new rows row)

  approve-new :
      (a : Text) (rows : List PairingRow) (row : PairingRow)
      → any owns rows ≡ false
      → owns row ≡ true
      → is_open row.status ≡ true
      → set_approved id a (rows ++ row ∷ [])
        ≡ rows ++ (record row { status = approved; address = some a }) ∷ []
  unfolding set_approved update_rows
  approve-new a [] row n h o = rw (h, o) refl
  approve-new a (r ∷ rows) row n h o =
      let skips : owns r ≡ false = ground arith in
      rw (skips, approve-new a rows row (ground arith) h o) refl

  count-new :
      (rows : List PairingRow) (row : PairingRow)
      → any owns rows ≡ false
      → owns row ≡ true
      → is_approved row.status ≡ true
      → count (is_claimable id) (rows ++ row ∷ []) ≡ 1
  unfolding is_claimable
  count-new [] row n h o = rw (h, o) refl
  count-new (r ∷ rows) row n h o = ground (arith, count-new rows row)

in_time : (now_ms t : ℕ) → now_ms ≤ t → is_current (some t) now_ms ≡ true
in_time now_ms t h = ground arith

made_new :
    (now_ms : ℕ) (fresh : Text) (rows : List PairingRow) (r : PairReply)
    → (post_pair now_ms fresh rows).0 ≡ ok r
    → (any (owns fresh) rows ≡ false)
      × ((post_pair now_ms fresh rows).1
          ≡ rows ++ new_pairing fresh (now_ms + desktop_pair_ttl_ms) ∷ [])
unfolding post_pair
made_new now_ms fresh rows r h = elim (Bool-cases (any (owns fresh) rows)) [
  | inl taken ↦ absurd (ground arith)
  | inr free ↦ (free, rw free refl)
]

abbrev approved_row : Text → ℕ → Text → PairingRow
approved_row fresh expires_ms a = record {
  id = fresh;
  status = approved;
  address = some a;
  expires_at = at expires_ms;
}

approve_made :
    (later expires_ms : ℕ) (fresh user : Text) (rows : List PairingRow) (pair_id : Value)
    → any (owns fresh) rows ≡ false
    → trimmed_string pair_id ≡ fresh
    → is_empty fresh ≡ false
    → later ≤ expires_ms
    → (post_approve later (rows ++ new_pairing fresh expires_ms ∷ []) user pair_id).1
      ≡ rows ++ approved_row fresh expires_ms (normalize_address user) ∷ []
unfolding post_approve approve_row new_pairing
approve_made later expires_ms fresh user rows pair_id free named full early =
    let row = new_pairing fresh expires_ms in
    rw
      (
        named,
        full,
        find-new fresh rows row free (text_eq_refl fresh),
        in_time later expires_ms early,
        approve-new fresh (normalize_address user) rows row free (text_eq_refl fresh) refl,
      )
      refl

claim_made :
    (last expires_ms : ℕ) (fresh a : Text) (rows : List PairingRow) (pair_id : Value)
    → any (owns fresh) rows ≡ false
    → trimmed_string pair_id ≡ fresh
    → is_empty fresh ≡ false
    → is_empty a ≡ false
    → last ≤ expires_ms
    → (post_claim last (rows ++ approved_row fresh expires_ms a ∷ []) pair_id).0
      ≡ ok (normalize_address a)
unfolding post_claim claim_row finish_claim set_claimed ready_address
claim_made last expires_ms fresh a rows pair_id free named full known late =
    let row = approved_row fresh expires_ms a in
    rw
      (
        named,
        full,
        find-new fresh rows row free (text_eq_refl fresh),
        in_time last expires_ms late,
        known,
        count-new fresh rows row free (text_eq_refl fresh) refl,
      )
      refl

-- A new pairing that a signed-in user approves within five minutes, and that the desktop then claims
-- within the same five minutes, signs the desktop in as that user, if no other request on pairings
-- is served between the three: each starts on the table that the one before has left.
pub approved_is_claimed :
    (now_ms later last : ℕ) (fresh user : Text) (rows : List PairingRow) (pair_id : Value)
    (r : PairReply)
    → (post_pair now_ms fresh rows).0 ≡ ok r
    → trimmed_string pair_id ≡ fresh
    → is_empty fresh ≡ false
    → is_empty (normalize_address user) ≡ false
    → later ≤ now_ms + desktop_pair_ttl_ms
    → last ≤ now_ms + desktop_pair_ttl_ms
    → (post_claim last
        (post_approve later (post_pair now_ms fresh rows).1 user pair_id).1
        pair_id).0
      ≡ ok (normalize_address user)
approved_is_claimed now_ms later last fresh user rows pair_id r made named full known early late =
    let expires_ms = now_ms + desktop_pair_ttl_ms in
    let (free, there) = made_new now_ms fresh rows r made in
    rw (there, approve_made later expires_ms fresh user rows pair_id free named full early)
      (claim_made last expires_ms fresh (normalize_address user) rows pair_id free named full known
          late
        ∙ ap ok (normalize_address_idem user))
