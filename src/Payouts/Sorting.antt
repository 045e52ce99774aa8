-- ===== src/Payouts/Sorting.antt =====
-- The sort of server/src/payoutClassifier.ts: the order it gives and the entries it keeps.
use steakout.Prelude.{
  ◌≡◌, refl, ◌∙◌, Text, Bool, true, false, ◌&&◌, List, [], ◌∷◌, count, arith, Bool-cases, inl, inr,
}
use steakout.Payouts.Order.{text_leb, insert, sort}
use steakout.Payouts.{Entry, entry_leb}

text_leb_total : (s t : Text) → text_leb s t ≡ false → text_leb t s ≡ true
unfolding text_leb
text_leb_total [] t h = absurd (ground arith)
text_leb_total (a ∷ s) [] h = refl
text_leb_total (a ∷ s) (b ∷ t) h = ground (arith, text_leb_total s t)

entry_leb_total : (a b : Entry) → entry_leb a b ≡ false → entry_leb b a ≡ true
unfolding entry_leb
entry_leb_total a b h = ground (arith, text_leb_total a.transaction.hash b.transaction.hash)

abbrev pub leads : Entry → List Entry → Bool
leads e [] = true
leads e (x ∷ xs) = entry_leb e x

-- Each entry comes no later than the next.
abbrev pub is_ordered : List Entry → Bool
is_ordered [] = true
is_ordered (e ∷ es) = leads e es && is_ordered es

leads-insert :
    (x e : Entry) (es : List Entry)
    → entry_leb x e ≡ true
    → leads x es ≡ true
    → leads x (insert entry_leb e es) ≡ true
unfolding insert
leads-insert x e [] h k = h
leads-insert x e (y ∷ ys) h k = elim (Bool-cases (entry_leb e y)) [
  | inl l ↦ rw l h
  | inr g ↦ rw g k
]

ordered-insert :
    (e : Entry) (es : List Entry) → is_ordered es ≡ true → is_ordered (insert entry_leb e es) ≡ true
unfolding insert
ordered-insert e [] h = refl
ordered-insert e (x ∷ xs) h = elim (Bool-cases (entry_leb e x)) [
  | inl l ↦ rw l (rw l h)
  | inr g ↦ rw g (ground (arith, leads-insert x e xs (entry_leb_total e x g), ordered-insert e xs))
]

pub sort-ordered : (es : List Entry) → is_ordered (sort entry_leb es) ≡ true
unfolding sort
sort-ordered [] = refl
sort-ordered (e ∷ es) = ordered-insert e (sort entry_leb es) (sort-ordered es)

count-insert :
    (p : Entry → Bool) (e : Entry) (es : List Entry)
    → count p (insert entry_leb e es) ≡ count p (e ∷ es)
unfolding insert
count-insert p e [] = refl
count-insert p e (x ∷ xs) = elim (Bool-cases (entry_leb e x)) [
  | inl l ↦ rw l refl
  | inr g ↦ rw g (ground (arith, count-insert p e xs))
]

pub count-sort : (p : Entry → Bool) (es : List Entry) → count p (sort entry_leb es) ≡ count p es
unfolding sort
count-sort p [] = refl
count-sort p (e ∷ es) = count-insert p e (sort entry_leb es) ∙ ground (arith, count-sort p es)
