-- ===== src/Coverage/Extremes.antt =====
-- computeRecipientCoverage (server/src/observationScoring.ts): when a run covers all known stakers,
-- and when none.
use mathlib.Core.Path.{subst}
use steakout.Prelude.{
  ◌≤◌, ◌≡◌, ◌↔◌, refl, sym, ap, ◌∙◌, Text, text_eq, text_eq_iff, is_empty, Bool, false, not, ◌&&◌,
  some, List, [], ◌∷◌, map, filter, any, count, length, Bool-cases, inl, inr, arith,
}
use steakout.Addresses.{normalize_address}
use steakout.Payouts.Order.{distinct}
use steakout.Coverage.{Covered, address_set, is_paid, cover, compute_recipient_coverage}

-- A known staker occurs among the recipients, whatever the spelling of the two.
abbrev pub is_recipient : List Text → Text → Bool
is_recipient recipients k =
    any (λ r. text_eq (normalize_address k) (normalize_address r)) recipients

-- An address of spaces only is not one.
abbrev pub is_blank : Text → Bool
is_blank k = is_empty (normalize_address k)

any-removed :
    (p : Text → Bool) (t : Text) (xs : List Text)
    → p t ≡ false
    → any p (filter (λ u. not (text_eq u t)) xs) ≡ any p xs
any-removed p t [] h = refl
any-removed p t (x ∷ xs) h = elim (Bool-cases (text_eq x t)) [
  | inl same ↦
      let out : p x ≡ false = ap p ((text_eq_iff x t).0 same) ∙ h in
      rw (same, out) (any-removed p t xs h)
  | inr other ↦ rw (other, any-removed p t xs h) refl
]

any-distinct : (p : Text → Bool) (xs : List Text) → any p (distinct xs) ≡ any p xs
unfolding distinct
any-distinct p [] = refl
any-distinct p (x ∷ xs) = elim (Bool-cases (p x)) [
  | inl t ↦ rw t refl
  | inr f ↦ rw (f, any-removed p x (distinct xs) f, any-distinct p xs) refl
]

any-address_set :
    (p : Text → Bool) (addresses : List Text)
    → any p (address_set addresses)
      ≡ any (λ a. not (is_blank a) && p (normalize_address a)) addresses
unfolding address_set
any-address_set p addresses =
    any-distinct p (filter (λ a. not (is_empty a)) (map normalize_address addresses))
    ∙ any_kept p addresses
  where
    any_kept :
        (p : Text → Bool) (xs : List Text)
        → any p (filter (λ a. not (is_empty a)) (map normalize_address xs))
          ≡ any (λ a. not (is_blank a) && p (normalize_address a)) xs
    any_kept p [] = refl
    any_kept p (x ∷ xs) = ground (arith, any_kept p xs)

any_pointwise :
    (p q : Text → Bool) (xs : List Text) → ((x : Text) → p x ≡ q x) → any p xs ≡ any q xs
any_pointwise p q [] h = refl
any_pointwise p q (x ∷ xs) h = rw (h x, any_pointwise p q xs h) refl

-- An address that is equal to one that is not empty is not empty.
same_full : (s t : Text) → is_empty s ≡ false → (not (is_empty t) && text_eq s t) ≡ text_eq s t
same_full s t h = elim (Bool-cases (text_eq s t)) [
  | inl e ↦
      let full : is_empty t ≡ false = subst (λ u. is_empty u ≡ false) ((text_eq_iff s t).0 e) h in
      rw (e, full) refl
  | inr e ↦ rw e (ground arith)
]

paid_recipient :
    (recipients : List Text) (k : Text)
    → is_blank k ≡ false
    → is_paid (address_set recipients) (normalize_address k) ≡ is_recipient recipients k
unfolding is_paid
paid_recipient recipients k h =
    any-address_set (text_eq (normalize_address k)) recipients
    ∙ any_pointwise _ _ recipients (λ r. same_full (normalize_address k) (normalize_address r) h)

-- A test of who was paid, on the set of the known stakers.
any_known :
    (f : Bool → Bool) (recipients known : List Text)
    → any (λ s. f (is_paid (address_set recipients) s)) (address_set known)
      ≡ any (λ k. not (is_blank k) && f (is_recipient recipients k)) known
any_known f recipients known =
    any-address_set (λ s. f (is_paid (address_set recipients) s)) known
    ∙ any_pointwise _ _ known (λ k. elim (Bool-cases (is_blank k)) [
      | inl blank ↦ rw blank refl
      | inr full ↦ rw (full, paid_recipient recipients k full) refl
    ])

count-le : (p : Text → Bool) (xs : List Text) → count p xs ≤ length xs
count-le p [] = omega arith
count-le p (x ∷ xs) = ground (arith, count-le p xs)

count_none : (p : Text → Bool) (xs : List Text) → (count p xs ≡ 0) ↔ (any p xs ≡ false)
count_none p [] = (λ h. refl, λ h. refl)
count_none p (x ∷ xs) = ground (arith, count_none p xs)

count_all :
    (p : Text → Bool) (xs : List Text)
    → (count p xs ≡ length xs) ↔ (any (λ x. not (p x)) xs ≡ false)
count_all p [] = (λ h. refl, λ h. refl)
count_all p (x ∷ xs) = ground (arith, count_all p xs, count-le p xs)

cover_extremes :
    (recipients stakers : List Text) (c : Covered)
    → cover recipients stakers ≡ some c
    → ((c.known_stakers_covered ≡ c.known_stakers_total)
        ↔ (any (λ s. not (is_paid recipients s)) stakers ≡ false))
      × ((c.known_stakers_covered ≡ 0) ↔ (any (λ s. is_paid recipients s) stakers ≡ false))
unfolding cover
cover_extremes recipients [] c h = absurd (ground arith)
cover_extremes recipients (s ∷ ss) c h =
    let covered : c.known_stakers_covered ≡ count (is_paid recipients) (s ∷ ss) = ground arith in
    let total : c.known_stakers_total ≡ length (s ∷ ss) = ground arith in
    rw (covered, total)
      (count_all (is_paid recipients) (s ∷ ss), count_none (is_paid recipients) (s ∷ ss))

-- A coverage that is reported is full exactly if every known staker whose address is not blank is
-- among the recipients, whatever the spelling of either, and it is zero exactly if none of them is.
pub coverage_extremes :
    (recipients known : List Text) (c : Covered)
    → compute_recipient_coverage recipients (some known) ≡ some c
    → ((c.known_stakers_covered ≡ c.known_stakers_total)
        ↔ (any (λ k. not (is_blank k) && not (is_recipient recipients k)) known ≡ false))
      × ((c.known_stakers_covered ≡ 0)
          ↔ (any (λ k. not (is_blank k) && is_recipient recipients k) known ≡ false))
unfolding compute_recipient_coverage
coverage_extremes recipients known c h =
    rw (sym (any_known not recipients known), sym (any_known (λ b. b) recipients known))
      (cover_extremes (address_set recipients) (address_set known) c h)
