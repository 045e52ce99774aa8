-- ===== src/Coverage/Laws.antt =====
-- computeRecipientCoverage (server/src/observationScoring.ts): bounds, and the coverage of all and of nobody.
use mathlib.Core.Path.{subst}
use steakout.Prelude.{
  suc, ◌≤◌, ◌≡◌, refl, ap, Text, text_eq, text_eq_refl, Bool, true, Option, none, some, List, [],
  ◌∷◌, ◌++◌, any, count, length, arith,
}
use steakout.Coverage.{Covered, address_set, is_paid, cover, compute_recipient_coverage}

count-le_length : (p : Text → Bool) (xs : List Text) → count p xs ≤ length xs
count-le_length p [] = omega arith
count-le_length p (x ∷ xs) = ground (arith, count-le_length p xs)

cover_bounds :
    (recipients stakers : List Text) (c : Covered)
    → cover recipients stakers ≡ some c
    → (1 ≤ c.known_stakers_total) × (c.known_stakers_covered ≤ c.known_stakers_total)
unfolding cover
cover_bounds recipients [] c h = absurd (ground arith)
cover_bounds recipients (s ∷ ss) c h =
    (ground arith, ground (arith, count-le_length (is_paid recipients) (s ∷ ss)))

-- A coverage that is reported is never of none, and covers no more stakers than are known.
pub coverage_bounds :
    (recipients : List Text) (known : Option (List Text)) (c : Covered)
    → compute_recipient_coverage recipients known ≡ some c
    → (1 ≤ c.known_stakers_total) × (c.known_stakers_covered ≤ c.known_stakers_total)
unfolding compute_recipient_coverage
coverage_bounds recipients none c h = absurd (ground arith)
coverage_bounds recipients (some known) c h =
    cover_bounds (address_set recipients) (address_set known) c h

any_later : (x : Text) (ys xs : List Text) → any (text_eq x) (ys ++ x ∷ xs) ≡ true
any_later x [] xs = rw (text_eq_refl x) refl
any_later x (y ∷ ys) xs = ground (arith, any_later x ys xs)

snoc_cons : (ys : List Text) (x : Text) (xs : List Text) → (ys ++ x ∷ []) ++ xs ≡ ys ++ x ∷ xs
snoc_cons [] x xs = refl
snoc_cons (y ∷ ys) x xs = ap (λ l. y ∷ l) (snoc_cons ys x xs)

count-itself : (ys xs : List Text) → count (is_paid (ys ++ xs)) xs ≡ length xs
unfolding is_paid
count-itself ys [] = refl
count-itself ys (x ∷ xs) = rw (any_later x ys xs) (
    ap suc (
      subst (λ l. count (λ s. any (text_eq s) l) xs ≡ length xs) (snoc_cons ys x xs)
        (count-itself (ys ++ x ∷ []) xs)))

cover_itself :
    (stakers : List Text) (c : Covered)
    → cover stakers stakers ≡ some c
    → c.known_stakers_covered ≡ c.known_stakers_total
unfolding cover
cover_itself [] c h = absurd (ground arith)
cover_itself (s ∷ ss) c h = ground (arith, count-itself [] (s ∷ ss))

-- A run that paid every known staker covers them all, if a coverage is reported.
pub coverage_complete :
    (known : List Text) (c : Covered)
    → compute_recipient_coverage known (some known) ≡ some c
    → c.known_stakers_covered ≡ c.known_stakers_total
unfolding compute_recipient_coverage
coverage_complete known c h = cover_itself (address_set known) c h
