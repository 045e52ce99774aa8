-- ===== src/Addresses/Laws.antt =====
-- The address helpers of server/src/addresses.ts: normal form, shape and equality.
use steakout.Prelude.{
  ℕ, ◌≡◌, refl, ap, sym, ◌∙◌, ◌↔◌, ◌⊎◌, Text, text_eq_iff, is_space, trim, trim_start, is_empty,
  Bool, true, false, not, some, [], ◌∷◌, ◌++◌, map, reverse, arith, ◌==◌, filter, all, Bool-cases,
  filter-eq_of_all, inl, inr,
}
use mathlib.Core.List.{reverse-append}
use mathlib.Core.Path.{subst}
use mathlib.Core.Bool.{false≢true}
use steakout.Addresses.{
  to_upper, normalize_address, has_address_shape, is_valid_nimiq_address, addresses_equal,
  sql_address,
}

abbrev is_solid : ℕ → Bool
is_solid c = not (is_space c)

-- An upper-case letter is no space, and is kept by `to_upper`.
to_upper-solid : (c : ℕ) → is_space c ≡ false → is_space (to_upper c) ≡ false
unfolding to_upper is_space
to_upper-solid c h = ground arith

not_blank : (c : ℕ) → is_space c ≡ false → (to_upper c == 32) ≡ false
unfolding to_upper is_space
not_blank c h = ground arith

to_upper_idem : (c : ℕ) → to_upper (to_upper c) ≡ to_upper c
unfolding to_upper
to_upper_idem c = ground arith

normalize-all_solid : (a : Text) → all is_solid (normalize_address a) ≡ true
unfolding normalize_address
normalize-all_solid [] = refl
normalize-all_solid (c ∷ a) = ground (arith, normalize-all_solid a, to_upper-solid c)

map-to_upper_idem : (a : Text) → map to_upper (map to_upper a) ≡ map to_upper a
map-to_upper_idem [] = refl
map-to_upper_idem (c ∷ a) = ground (arith, map-to_upper_idem a, to_upper_idem c)

-- Normalizing twice is normalizing once.
pub normalize_address_idem :
    (a : Text) → normalize_address (normalize_address a) ≡ normalize_address a
unfolding normalize_address
normalize_address_idem a =
    let solid : filter is_solid (normalize_address a) ≡ normalize_address a =
      filter-eq_of_all is_solid (normalize_address a) (normalize-all_solid a) in
    normalize_of_solid (normalize_address a) solid ∙ upper_of_normalized a
  where
    normalize_of_solid : (t : Text) → filter is_solid t ≡ t → normalize_address t ≡ map to_upper t
    normalize_of_solid t h = ap (map to_upper) h

    upper_of_normalized : (t : Text) → map to_upper (normalize_address t) ≡ normalize_address t
    upper_of_normalized t = map-to_upper_idem (filter is_solid t)

trim_start_nonempty :
    (a : Text) (c : ℕ) → is_space c ≡ false → is_empty (trim_start (a ++ c ∷ [])) ≡ false
unfolding trim_start
trim_start_nonempty [] c h = ground arith
trim_start_nonempty (b ∷ a) c h = ground (arith, trim_start_nonempty a c h)

trim_start_head :
    (a : Text)
    → (filter is_solid a ≡ [])
      ⊎ ((c : ℕ) × (r : Text) × (trim_start a ≡ c ∷ r) × (is_space c ≡ false))
unfolding trim_start
trim_start_head [] = inl refl
trim_start_head (c ∷ a) = elim (Bool-cases (is_space c)) [
  | inl e ↦ rw e (trim_start_head a)
  | inr e ↦ inr (c, a, rw e, e)
]

trim_start-reverse :
    (c : ℕ) (r : Text) → is_space c ≡ false → is_empty (trim_start (reverse (c ∷ r))) ≡ false
trim_start-reverse c r solid =
    subst (λ t. is_empty (trim_start t) ≡ false) (sym (reverse-append (c ∷ []) r))
      (trim_start_nonempty (reverse r) c solid)

is_empty-snoc : (xs : Text) (c : ℕ) → is_empty (xs ++ c ∷ []) ≡ false
is_empty-snoc [] c = refl
is_empty-snoc (x ∷ xs) c = refl

is_empty-reverse : (xs : Text) → is_empty (reverse xs) ≡ is_empty xs
is_empty-reverse [] = refl
is_empty-reverse (c ∷ r) = ap is_empty (reverse-append (c ∷ []) r) ∙ is_empty-snoc (reverse r) c

-- What `trim` empties holds no letter.
solid_of_trim : (a : Text) → is_empty (trim a) ≡ true → filter is_solid a ≡ []
unfolding trim
solid_of_trim a h = elim (trim_start_head a) [
  | inl e ↦ e
  | inr (c, r, e, solid) ↦
      let kept : is_empty (trim a) ≡ false =
        is_empty-reverse (trim_start (reverse (trim_start a)))
        ∙ ap (λ t. is_empty (trim_start (reverse t))) e
        ∙ trim_start-reverse c r solid in
      absurd (false≢true (sym kept ∙ h))
]

shape_of_blank :
    (a : Text) → filter is_solid a ≡ [] → has_address_shape (normalize_address a) ≡ false
unfolding normalize_address has_address_shape
shape_of_blank a h = rw h

no_blank :
    (a : Text)
    → filter (λ c. not (c == 32)) (map to_upper (filter is_solid a))
      ≡ map to_upper (filter is_solid a)
no_blank [] = refl
no_blank (c ∷ a) = ground (arith, no_blank a, not_blank c)

-- The test for an empty text never decides: only the shape does.
pub is_valid-eq-shape :
    (a : Text) → is_valid_nimiq_address (some a) ≡ has_address_shape (normalize_address a)
unfolding is_valid_nimiq_address
is_valid-eq-shape a = elim (Bool-cases (is_empty (trim a))) [
  | inl e ↦ rw (e, shape_of_blank a (solid_of_trim a e))
  | inr e ↦ rw e
]

pub is_valid_normalize :
    (a : Text)
    → is_valid_nimiq_address (some (normalize_address a)) ≡ is_valid_nimiq_address (some a)
is_valid_normalize a = simp (is_valid-eq-shape, normalize_address_idem)

-- Two texts are equal addresses exactly when the first is valid and both have one normal form.
pub addresses_equal_iff :
    (a b : Text)
    → (addresses_equal (some a) (some b) ≡ true)
      ↔ ((is_valid_nimiq_address (some a) ≡ true) × (normalize_address a ≡ normalize_address b))
unfolding addresses_equal
addresses_equal_iff a b = ground (
  arith,
  text_eq_iff (normalize_address a) (normalize_address b),
  is_valid-eq-shape a,
  is_valid-eq-shape b,
  λ (p : normalize_address a ≡ normalize_address b). ap has_address_shape p,
)

-- SQLite's form of a normalized address is that address.
pub sql_address-normalize : (a : Text) → sql_address (normalize_address a) ≡ normalize_address a
unfolding sql_address normalize_address
sql_address-normalize a = rw (map-to_upper_idem (filter is_solid a)) (no_blank a)
