-- ===== src/Intents/Rows/Laws.antt =====
-- How the SQL statements of server/src/stakingIntents.ts act on the row of one intent, and the order in
-- which intents evolve.
use mathlib.Core.Bool.{false≢true}
use steakout.Prelude.{
  ◌≡◌, refl, sym, ap, ◌∙◌, Text, text_eq, text_eq_refl, Bool, true, false, some, List, [], ◌∷◌,
  ◌++◌, arith, if◌then◌else◌, find, any, count, count-append, Bool-cases, inl, inr,
}
use steakout.Prelude.Js.{Iso}
use steakout.Database.{Database, IntentRow, confirmed}
use steakout.Reading.{is_pending}
use steakout.Intents.Rows.{
  update_where, update_intents, get_intent_by_id, is_abandoned, expire,
  expire_abandoned_pending_intents, is_pending_id, expire_intent, fail_intent, confirm_intent,
  insert_intent,
}

abbrev pub has_id : Text → IntentRow → Bool
has_id id row = text_eq row.id id

abbrev pub changed : (IntentRow → Bool) → (IntentRow → IntentRow) → IntentRow → IntentRow
changed p f row = if p row then f row else row

-- What never changes in the life of an intent, and that it changes only while it is pending.
pub record Keeps (row row' : IntentRow) : Type 0 where
  pub id : row'.id ≡ row.id
  pub owner : row'.user_address ≡ row.user_address
  pub operation : row'.operation ≡ row.operation
  pub params : row'.params_json ≡ row.params_json
  pub expiry : row'.expires_at ≡ row.expires_at
  pub settled : is_pending row.status ≡ false → row' ≡ row

pub Keeps-refl : (row : IntentRow) → Keeps row row
Keeps-refl row = record {
  id = refl;
  owner = refl;
  operation = refl;
  params = refl;
  expiry = refl;
  settled = λ h. refl;
}

pub Keeps-trans : (a b c : IntentRow) → Keeps a b → Keeps b c → Keeps a c
Keeps-trans a b c h k = record {
  id = k.id ∙ h.id;
  owner = k.owner ∙ h.owner;
  operation = k.operation ∙ h.operation;
  params = k.params ∙ h.params;
  expiry = k.expiry ∙ h.expiry;
  settled = λ done.
      k.settled (ap (λ (r : IntentRow). is_pending r.status) (h.settled done) ∙ done)
      ∙ h.settled done;
}

-- Every intent is still found by its id, and is what it was but for a pending one's outcome.
pub record Evolves (db db' : Database) : Type 0 where
  pub at :
      (id : Text) (row : IntentRow)
      → get_intent_by_id db id ≡ some row
      → (row' : IntentRow) × (get_intent_by_id db' id ≡ some row') × Keeps row row'

pub Evolves-refl : (db : Database) → Evolves db db
Evolves-refl db = record { at = λ id row h. (row, h, Keeps-refl row) }

pub Evolves-trans : {a b c : Database} → Evolves a b → Evolves b c → Evolves a c
Evolves-trans h k = record {
  at = λ id row found.
      let (row', found', keeps) = h.at id row found in
      let (row'', found'', keeps') = k.at id row' found' in
      (row'', found'', Keeps-trans row row' row'' keeps keeps');
}

-- A change of the tables that leaves the intents alone.
pub Evolves-same : (db db' : Database) → db'.staking_intents ≡ db.staking_intents → Evolves db db'
unfolding get_intent_by_id
Evolves-same db db' e = record { at = λ id row h. (row, rw e h, Keeps-refl row) }

module _ (p : IntentRow → Bool) (f : IntentRow → IntentRow)
    (keeps : (row : IntentRow) → p row ≡ true → Keeps row (f row)) where
  changed-Keeps : (row : IntentRow) → Keeps row (changed p f row)
  changed-Keeps row = elim (Bool-cases (p row)) [
    | inl e ↦ rw e (keeps row e)
    | inr e ↦ rw e (Keeps-refl row)
  ]

  find-update_where :
      (id : Text) (rows : List IntentRow) (row : IntentRow)
      → find (has_id id) rows ≡ some row
      → find (has_id id) (update_where p f rows) ≡ some (changed p f row)
  unfolding update_where
  find-update_where id [] row h = cc
  find-update_where id (r ∷ rows) row h = elim (Bool-cases (has_id id r)) [
    | inl e ↦
        let same : r ≡ row = cc (e, h) in
        rw ((changed-Keeps r).id, e) (ap (λ t. some (changed p f t)) same)
    | inr e ↦ rw ((changed-Keeps r).id, e) (find-update_where id rows row (rw e at h))
  ]

  pub update_intents-Evolves : (db : Database) → Evolves db (update_intents p f db).0
  unfolding update_intents get_intent_by_id
  update_intents-Evolves db = record {
    at = λ id row h.
        (changed p f row, find-update_where id db.staking_intents row h, changed-Keeps row);
  }

  pub get_intent_by_id-update :
      (db : Database) (id : Text) (row : IntentRow)
      → get_intent_by_id db id ≡ some row
      → get_intent_by_id (update_intents p f db).0 id ≡ some (changed p f row)
  unfolding update_intents get_intent_by_id
  get_intent_by_id-update db id row h = find-update_where id db.staking_intents row h

find-has_id :
    (id : Text) (rows : List IntentRow) (row : IntentRow)
    → find (has_id id) rows ≡ some row
    → has_id id row ≡ true
find-has_id id [] row h = cc
find-has_id id (r ∷ rows) row h = ground (arith, find-has_id id rows row)

pub id_of_found :
    (db : Database) (id : Text) (row : IntentRow)
    → get_intent_by_id db id ≡ some row
    → text_eq row.id id ≡ true
unfolding get_intent_by_id
id_of_found db id row h = find-has_id id db.staking_intents row h

is_pending_id-pending :
    (id : Text) (row : IntentRow) → is_pending_id id row ≡ true → is_pending row.status ≡ true
unfolding is_pending_id
is_pending_id-pending id row h = ground arith

is_pending_id-eq :
    (id : Text) (row : IntentRow)
    → text_eq row.id id ≡ true
    → is_pending_id id row ≡ is_pending row.status
unfolding is_pending_id
is_pending_id-eq id row h = rw h

is_abandoned-pending :
    (a : Text) (row : IntentRow) → is_abandoned a row ≡ true → is_pending row.status ≡ true
unfolding is_abandoned
is_abandoned-pending a row h = ground arith

-- A pending row may get any status, hash and confirmation time.
Keeps-of_pending :
    (row : IntentRow) (row' : IntentRow)
    → is_pending row.status ≡ true
    → row'.id ≡ row.id
    → row'.user_address ≡ row.user_address
    → row'.operation ≡ row.operation
    → row'.params_json ≡ row.params_json
    → row'.expires_at ≡ row.expires_at
    → Keeps row row'
Keeps-of_pending row row' h a b c d e = record {
  id = a;
  owner = b;
  operation = c;
  params = d;
  expiry = e;
  settled = λ k. absurd (false≢true (sym k ∙ h));
}

pub expire_abandoned-Evolves :
    (db : Database) (address : Text) → Evolves db (expire_abandoned_pending_intents db address).0
unfolding expire_abandoned_pending_intents
expire_abandoned-Evolves db address =
    update_intents-Evolves _ expire
      (λ row h.
        Keeps-of_pending row (expire row) (is_abandoned-pending _ row h) refl refl refl refl refl)
      db

pub expire_intent-Evolves : (db : Database) (id : Text) → Evolves db (expire_intent db id)
unfolding expire_intent
expire_intent-Evolves db id =
    update_intents-Evolves (is_pending_id id) expire
      (λ row h.
        Keeps-of_pending row (expire row) (is_pending_id-pending id row h) refl refl refl refl refl)
      db

pub fail_intent-Evolves : (db : Database) (id hash : Text) → Evolves db (fail_intent db id hash)
unfolding fail_intent
fail_intent-Evolves db id hash =
    update_intents-Evolves (is_pending_id id) _
      (λ row h. Keeps-of_pending row _ (is_pending_id-pending id row h) refl refl refl refl refl) db

abbrev pub confirmed_row : Text → Iso → IntentRow → IntentRow
confirmed_row hash time row = record row {
  status = confirmed;
  tx_hash = some hash;
  confirmed_at = some time;
}

-- A pending intent that is found is the confirmed row afterwards.
pub get_intent_by_id-confirm :
    (db : Database) (id hash : Text) (time : Iso) (row : IntentRow)
    → get_intent_by_id db id ≡ some row
    → get_intent_by_id (confirm_intent db id hash time).0 id
      ≡ some (if is_pending row.status then confirmed_row hash time row else row)
unfolding confirm_intent
get_intent_by_id-confirm db id hash time row h =
    get_intent_by_id-update (is_pending_id id) (confirmed_row hash time)
      (λ r p. Keeps-of_pending r _ (is_pending_id-pending id r p) refl refl refl refl refl) db id
      row h
    ∙ ap (λ b. some (if b then confirmed_row hash time row else row))
        (is_pending_id-eq id row (id_of_found db id row h))

pub confirm_intent-Evolves :
    (db : Database) (id hash : Text) (time : Iso) → Evolves db (confirm_intent db id hash time).0
unfolding confirm_intent
confirm_intent-Evolves db id hash time =
    update_intents-Evolves (is_pending_id id) _
      (λ row h. Keeps-of_pending row _ (is_pending_id-pending id row h) refl refl refl refl refl) db

find-append :
    (id : Text) (rows more : List IntentRow) (row : IntentRow)
    → find (has_id id) rows ≡ some row
    → find (has_id id) (rows ++ more) ≡ some row
find-append id [] more row h = cc
find-append id (r ∷ rows) more row h = ground (arith, find-append id rows more row)

staking_intents-insert :
    (db db' : Database) (row : IntentRow)
    → insert_intent db row ≡ some db'
    → db'.staking_intents ≡ db.staking_intents ++ row ∷ []
unfolding insert_intent
staking_intents-insert db db' row h = ground arith

pub insert_intent-Evolves :
    (db db' : Database) (row : IntentRow) → insert_intent db row ≡ some db' → Evolves db db'
unfolding get_intent_by_id
insert_intent-Evolves db db' row h = record {
  at = λ id old found. (
    old,
    rw (staking_intents-insert db db' row h)
        (find-append id db.staking_intents (row ∷ []) old found),
    Keeps-refl old,
  );
}

find-last :
    (rows : List IntentRow) (row : IntentRow)
    → any (has_id row.id) rows ≡ false
    → find (has_id row.id) (rows ++ row ∷ []) ≡ some row
find-last [] row h = rw (text_eq_refl row.id)
find-last (r ∷ rows) row h = ground (arith, find-last rows row)

-- What was inserted is found.
pub get_intent_by_id-insert :
    (db db' : Database) (row : IntentRow)
    → insert_intent db row ≡ some db'
    → get_intent_by_id db' row.id ≡ some row
unfolding insert_intent get_intent_by_id
get_intent_by_id-insert db db' row h = ground (arith, find-last db.staking_intents row)

count-absent :
    (id : Text) (rows : List IntentRow)
    → any (has_id id) rows ≡ false
    → count (is_pending_id id) rows ≡ 0
unfolding is_pending_id
count-absent id [] h = refl
count-absent id (r ∷ rows) h = ground (arith, count-absent id rows)

is_pending_id_self :
    (row : IntentRow) → is_pending row.status ≡ true → is_pending_id row.id row ≡ true
unfolding is_pending_id
is_pending_id_self row h = rw (text_eq_refl row.id, h)

no_id_before_insert :
    (db db' : Database) (row : IntentRow)
    → insert_intent db row ≡ some db'
    → any (has_id row.id) db.staking_intents ≡ false
unfolding insert_intent
no_id_before_insert db db' row h = ground arith

-- A pending row that was inserted is the only pending one with its id.
pub count-insert :
    (db db' : Database) (row : IntentRow)
    → insert_intent db row ≡ some db'
    → is_pending row.status ≡ true
    → count (is_pending_id row.id) db'.staking_intents ≡ 1
count-insert db db' row h k = rw (staking_intents-insert db db' row h) (
    count-append (is_pending_id row.id) db.staking_intents (row ∷ [])
    ∙ ground (
      arith,
      count-absent row.id db.staking_intents,
      no_id_before_insert db db' row h,
      is_pending_id_self row k,
    ))
