-- ===== src/Indexer/Table.antt =====
-- The rows that server/src/payoutIndexer.ts inserts, and those that were there.
use mathlib.Core.Path.{subst}
use mathlib.Core.List.{append_assoc, append-nil}
use steakout.Prelude.{
  ◌≡◌, refl, sym, ap, ◌∙◌, Text, text_eq, text_eq_iff, text_eq_refl, Bool, true, false, not, ◌&&◌,
  ◌||◌, List, [], ◌∷◌, ◌++◌, any, arith, Bool-cases, inl, inr,
}
use steakout.Indexer.{NormalizedTransaction}
use steakout.Indexer.Address.{insert_or_ignore, insert_all}

-- The hash is the key of the table.
abbrev pub is_keyed : List NormalizedTransaction → Bool
is_keyed [] = true
is_keyed (x ∷ xs) = not (any (λ r. text_eq x.hash r.hash) xs) && is_keyed xs

abbrev pub is_stored : List NormalizedTransaction → Text → Bool
is_stored rows h = any (λ r. text_eq r.hash h) rows

-- More rows at the end, under a key.
pub record Grows (rows rows' : List NormalizedTransaction) : Type 0 where
  pub added : List NormalizedTransaction
  pub grown : rows' ≡ rows ++ added
  pub keyed : is_keyed rows' ≡ true

any-snoc :
    (p : NormalizedTransaction → Bool) (xs : List NormalizedTransaction) (x : NormalizedTransaction)
    → any p (xs ++ x ∷ []) ≡ (any p xs || p x)
any-snoc p [] x = ground arith
any-snoc p (y ∷ xs) x = ground (arith, any-snoc p xs x)

keyed-snoc :
    (t : NormalizedTransaction) (rows : List NormalizedTransaction)
    → is_keyed rows ≡ true
    → is_stored rows t.hash ≡ false
    → is_keyed (rows ++ t ∷ []) ≡ true
keyed-snoc t [] h g = refl
keyed-snoc t (x ∷ xs) h g =
    ground (arith, keyed-snoc t xs, any-snoc (λ r. text_eq x.hash r.hash) xs t)

insert-Grows :
    (t : NormalizedTransaction) (rows : List NormalizedTransaction)
    → is_keyed rows ≡ true
    → Grows rows (insert_or_ignore t rows)
unfolding insert_or_ignore
insert-Grows t rows h = elim (Bool-cases (is_stored rows t.hash)) [
  | inl old ↦ rw old (record { added = []; grown = sym (append-nil rows); keyed = h })
  | inr new ↦ rw new (record { added = t ∷ []; grown = refl; keyed = keyed-snoc t rows h new })
]

Grows-trans : {a b c : List NormalizedTransaction} → Grows a b → Grows b c → Grows a c
Grows-trans {a} g k = record {
  added = g.added ++ k.added;
  grown = k.grown ∙ ap (λ r. r ++ k.added) g.grown ∙ append_assoc a g.added k.added;
  keyed = k.keyed;
}

pub insert_all-Grows :
    (ts rows : List NormalizedTransaction) → is_keyed rows ≡ true → Grows rows (insert_all ts rows)
unfolding insert_all
insert_all-Grows [] rows h = record { added = []; grown = sym (append-nil rows); keyed = h }
insert_all-Grows (t ∷ ts) rows h =
    let first = insert-Grows t rows h in
    Grows-trans first (insert_all-Grows ts (insert_or_ignore t rows) first.keyed)

stored-insert :
    (t : NormalizedTransaction) (rows : List NormalizedTransaction) (h : Text)
    → is_stored rows h ≡ true
    → is_stored (insert_or_ignore t rows) h ≡ true
unfolding insert_or_ignore
stored-insert t rows h s = elim (Bool-cases (is_stored rows t.hash)) [
  | inl old ↦ rw old s
  | inr new ↦ rw (new, any-snoc (λ r. text_eq r.hash h) rows t, s) refl
]

-- What was stored stays stored.
pub stored-insert_all :
    (ts rows : List NormalizedTransaction) (h : Text)
    → is_stored rows h ≡ true
    → is_stored (insert_all ts rows) h ≡ true
unfolding insert_all
stored-insert_all [] rows h s = s
stored-insert_all (t ∷ ts) rows h s =
    stored-insert_all ts (insert_or_ignore t rows) h (stored-insert t rows h s)

stored_self :
    (t : NormalizedTransaction) (rows : List NormalizedTransaction)
    → is_stored (insert_or_ignore t rows) t.hash ≡ true
unfolding insert_or_ignore
stored_self t rows = elim (Bool-cases (is_stored rows t.hash)) [
  | inl old ↦ rw old old
  | inr new ↦
      rw (new, any-snoc (λ r. text_eq r.hash t.hash) rows t, text_eq_refl t.hash) (ground arith)
]

-- Every transaction that is inserted is stored, under its hash.
pub inserted_stored :
    (ts rows : List NormalizedTransaction) (h : Text)
    → is_stored ts h ≡ true
    → is_stored (insert_all ts rows) h ≡ true
unfolding insert_all
inserted_stored [] rows h s = absurd (ground arith)
inserted_stored (t ∷ ts) rows h s = elim (Bool-cases (text_eq t.hash h)) [
  | inl e ↦
      subst (λ k. is_stored (insert_all ts (insert_or_ignore t rows)) k ≡ true)
        ((text_eq_iff t.hash h).0 e)
        (stored-insert_all ts (insert_or_ignore t rows) t.hash (stored_self t rows))
  | inr e ↦ inserted_stored ts (insert_or_ignore t rows) h (ground arith)
]
