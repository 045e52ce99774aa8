-- ===== src/Payouts/Persist/Laws.antt =====
-- persistPayoutRuns (server/src/payoutClassifier.ts) and the observations outside its scope.
use mathlib.Core.Path.{subst}
use steakout.Prelude.{
  ℕ, ◌≡◌, refl, sym, ap, ◌∙◌, Text, text_eq_refl, Bool, true, false, not, ◌&&◌, ◌||◌, Option, none,
  some, List, [], ◌∷◌, ◌++◌, ◌==◌, if◌then◌else◌, any, all, filter, arith, ◌⊎◌, ==_iff, Bool-cases,
  inl, inr,
}
use steakout.Payouts.{PayoutRun}
use steakout.Payouts.Persist.{
  PayoutRunPayload, ObservationRow, Observations, PersistOptions, Counts, in_scope, prior_of,
  insert_run, new_row, payout_run_type, refreshed, update_run, delete_row, store_run, store_runs,
  remove_orphans, remove_if_orphan, is_orphan, persist_payout_runs, has_source, is_unchanged,
  payout_run_to_payload,
}

abbrev has_id : ℕ → List ObservationRow → Bool
has_id id rows = any (λ e. e.id == id) rows

abbrev pub out_of_scope : PersistOptions → ObservationRow → Bool
out_of_scope o row = not (in_scope o row)

-- Rows of another scope have ids of their own, since `id` is the primary key.
abbrev pub ids_apart : PersistOptions → List ObservationRow → List ObservationRow → Bool
ids_apart o existing rows = all (λ r. in_scope o r || not (has_id r.id existing)) rows

and_left : (a b : Bool) → (a && b) ≡ true → a ≡ true
and_left a b h = ground arith

and_right : (a b : Bool) → (a && b) ≡ true → b ≡ true
and_right a b h = ground arith

or_not : (a b : Bool) → (a || not b) ≡ true → b ≡ true → a ≡ true
or_not a b h k = ground arith

-- A row that is hit by the id of an existing one is in scope.
hit :
    (o : PersistOptions) (existing : List ObservationRow) (row : ObservationRow) (id : ℕ)
    → (in_scope o row || not (has_id row.id existing)) ≡ true
    → has_id id existing ≡ true
    → (row.id == id) ≡ true
    → in_scope o row ≡ true
hit o existing row id k h e =
    or_not (in_scope o row) (has_id row.id existing) k
      (subst (λ n. has_id n existing ≡ true) (sym ((==_iff row.id id).0 e)) h)

module _ (o : PersistOptions) (existing : List ObservationRow) where
  in_scope-refreshed :
      (run : PayoutRun) (payload : PayoutRunPayload) (row : ObservationRow)
      → in_scope o (refreshed run payload row) ≡ in_scope o row
  unfolding in_scope refreshed
  in_scope-refreshed run payload row = refl

  update_keeps :
      (id : ℕ) (run : PayoutRun) (payload : PayoutRunPayload) (rows : List ObservationRow)
      → has_id id existing ≡ true
      → ids_apart o existing rows ≡ true
      → (filter (out_of_scope o) (update_run id run payload rows) ≡ filter (out_of_scope o) rows)
        × (ids_apart o existing (update_run id run payload rows) ≡ true)
  unfolding update_run
  update_keeps id run payload [] h k = (refl, refl)
  update_keeps id run payload (row ∷ rows) h k =
      let kept = update_keeps id run payload rows h (and_right _ _ k) in
      let head : (in_scope o row || not (has_id row.id existing)) ≡ true = and_left _ _ k in
      elim (Bool-cases (row.id == id)) [
        | inl e ↦ rw (e, in_scope-refreshed run payload row, hit o existing row id head h e) kept
        | inr e ↦ rw (e, kept.0, kept.1, head) (refl, refl)
      ]

  delete_keeps :
      (id : ℕ) (rows : List ObservationRow)
      → has_id id existing ≡ true
      → ids_apart o existing rows ≡ true
      → (filter (out_of_scope o) (delete_row id rows) ≡ filter (out_of_scope o) rows)
        × (ids_apart o existing (delete_row id rows) ≡ true)
  unfolding delete_row
  delete_keeps id [] h k = (refl, refl)
  delete_keeps id (row ∷ rows) h k =
      let kept = delete_keeps id rows h (and_right _ _ k) in
      let head : (in_scope o row || not (has_id row.id existing)) ≡ true = and_left _ _ k in
      elim (Bool-cases (row.id == id)) [
        | inl e ↦ rw (e, hit o existing row id head h e) kept
        | inr e ↦ rw (e, kept.0, kept.1, head) (refl, refl)
      ]

picked :
    (later : Option ObservationRow) (row prior : ObservationRow) (b : Bool)
    → (elim later as (λ _. Option ObservationRow) [
      | some l ↦ some l
      | none ↦ if b then some row else none
    ])
      ≡ some prior
    → (later ≡ some prior) ⊎ (row ≡ prior)
picked (some l) row prior b h = inl h
picked none row prior true h = inr (ground arith)
picked none row prior false h = absurd (ground arith)

same_version : (n : ℕ) → (true && true && (n == n)) ≡ true
same_version n = ground arith

in_scope-new_row :
    (o : PersistOptions) (run : PayoutRun) (payload : PayoutRunPayload) (id : ℕ)
    → in_scope o (new_row o run payload id) ≡ true
unfolding in_scope new_row
in_scope-new_row o run payload id =
    rw (text_eq_refl o.validator_address, text_eq_refl payout_run_type)
      (same_version o.calc_version)

append_keeps :
    (o : PersistOptions) (existing : List ObservationRow) (row : ObservationRow)
    (rows : List ObservationRow)
    → in_scope o row ≡ true
    → ids_apart o existing rows ≡ true
    → (filter (out_of_scope o) (rows ++ row ∷ []) ≡ filter (out_of_scope o) rows)
      × (ids_apart o existing (rows ++ row ∷ []) ≡ true)
append_keeps o existing row [] s k = rw s (refl, refl)
append_keeps o existing row (r ∷ rows) s k =
    let kept = append_keeps o existing row rows s (and_right _ _ k) in
    let head : (in_scope o r || not (has_id r.id existing)) ≡ true = and_left _ _ k in
    rw (kept.0, kept.1, head) (refl, refl)

prior_of-has_id :
    (hash : Text) (existing : List ObservationRow) (prior : ObservationRow)
    → prior_of hash existing ≡ some prior
    → has_id prior.id existing ≡ true
unfolding prior_of
prior_of-has_id hash [] prior h = absurd (ground arith)
prior_of-has_id hash (row ∷ rows) prior h =
    elim (picked (prior_of hash rows) row prior (has_source hash row.source_tx_hash) h) [
      | inl later ↦ ground (arith, prior_of-has_id hash rows prior later)
      | inr same ↦ ground (arith, ap (λ (r : ObservationRow). r.id) same)
    ]

snoc_cons :
    (ys : List ObservationRow) (x : ObservationRow) (xs : List ObservationRow)
    → (ys ++ x ∷ []) ++ xs ≡ ys ++ x ∷ xs
snoc_cons [] x xs = refl
snoc_cons (y ∷ ys) x xs = ap (λ l. y ∷ l) (snoc_cons ys x xs)

has_id-middle :
    (done : List ObservationRow) (row : ObservationRow) (todo : List ObservationRow)
    → has_id row.id (done ++ row ∷ todo) ≡ true
has_id-middle [] row todo = ground arith
has_id-middle (d ∷ done) row todo = ground (arith, has_id-middle done row todo)

module _ (o : PersistOptions) (existing : List ObservationRow) where
  -- What every step keeps of a table.
  record Kept (before after : List ObservationRow) : Type 0 where
    others : filter (out_of_scope o) after ≡ filter (out_of_scope o) before
    apart : ids_apart o existing after ≡ true

  insert-Kept :
      (run : PayoutRun) (payload : PayoutRunPayload) (t : Observations)
      → ids_apart o existing t.rows ≡ true
      → Kept t.rows (insert_run o run payload t).rows
  unfolding insert_run
  insert-Kept run payload t k =
      let kept =
        append_keeps o existing (new_row o run payload t.next_id) t.rows
          (in_scope-new_row o run payload t.next_id) k in
      record { others = kept.0; apart = kept.1 }

  store_run-Kept :
      (run : PayoutRun) (found : Option ObservationRow) (s : Observations × Counts)
      → prior_of run.first_tx_hash existing ≡ found
      → ids_apart o existing s.0.rows ≡ true
      → Kept s.0.rows (store_run o run found s).0.rows
  unfolding store_run
  store_run-Kept run none (t, c) f k =
      insert-Kept run (payout_run_to_payload run o.window_minutes) t k
  store_run-Kept run (some prior) (t, c) f k =
      let payload = payout_run_to_payload run o.window_minutes in
      let kept =
        update_keeps o existing prior.id run payload t.rows (prior_of-has_id _ existing prior f)
          k in
      elim (Bool-cases (is_unchanged prior run payload)) [
        | inl e ↦ rw e (record { others = refl; apart = k })
        | inr e ↦ rw e (record { others = kept.0; apart = kept.1 })
      ]

  Kept-trans : {a b c : List ObservationRow} → Kept a b → Kept b c → Kept a c
  Kept-trans h k = record { others = k.others ∙ h.others; apart = k.apart }

  store_runs-Kept :
      (runs : List PayoutRun) (s : Observations × Counts)
      → ids_apart o existing s.0.rows ≡ true
      → Kept s.0.rows (store_runs o existing runs s).0.rows
  unfolding store_runs
  store_runs-Kept [] s k = record { others = refl; apart = k }
  store_runs-Kept (run ∷ runs) s k =
      let step = store_run-Kept run (prior_of run.first_tx_hash existing) s refl k in
      Kept-trans step (store_runs-Kept runs _ step.apart)

  remove_if_orphan-Kept :
      (runs : List PayoutRun) (done : List ObservationRow) (row : ObservationRow)
      (todo : List ObservationRow) (s : Observations × Counts)
      → done ++ row ∷ todo ≡ existing
      → ids_apart o existing s.0.rows ≡ true
      → Kept s.0.rows (remove_if_orphan runs row s).0.rows
  unfolding remove_if_orphan
  remove_if_orphan-Kept runs done row todo (t, c) e k =
      let there = subst (λ l. has_id row.id l ≡ true) e (has_id-middle done row todo) in
      let kept = delete_keeps o existing row.id t.rows there k in
      elim (Bool-cases (is_orphan runs row.source_tx_hash)) [
        | inl f ↦ rw f (record { others = kept.0; apart = kept.1 })
        | inr f ↦ rw f (record { others = refl; apart = k })
      ]

  remove_orphans-Kept :
      (runs : List PayoutRun) (done todo : List ObservationRow) (s : Observations × Counts)
      → done ++ todo ≡ existing
      → ids_apart o existing s.0.rows ≡ true
      → Kept s.0.rows (remove_orphans runs todo s).0.rows
  unfolding remove_orphans
  remove_orphans-Kept runs done [] s e k = record { others = refl; apart = k }
  remove_orphans-Kept runs done (row ∷ todo) s e k =
      let step = remove_if_orphan-Kept runs done row todo s e k in
      Kept-trans step (
        remove_orphans-Kept runs (done ++ row ∷ []) todo (remove_if_orphan runs row s)
          (snoc_cons done row todo ∙ e) step.apart)

-- Storing runs leaves the observations of other validators, other types and other versions exactly
-- as they were, in their order, if none of them shares its id with an observation in scope.
pub persist-others_untouched :
    (o : PersistOptions) (runs : List PayoutRun) (t : Observations)
    → ids_apart o (filter (in_scope o) t.rows) t.rows ≡ true
    → filter (out_of_scope o) (persist_payout_runs o runs t).0.rows ≡ filter (out_of_scope o) t.rows
unfolding persist_payout_runs
persist-others_untouched o runs t h =
    let existing = filter (in_scope o) t.rows in
    let stored =
      store_runs-Kept o existing runs (t, record { inserted = 0; updated = 0; removed = 0 }) h in
    (Kept-trans o existing stored
      (remove_orphans-Kept o existing runs [] existing _ refl stored.apart)).others
