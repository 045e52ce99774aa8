-- ===== src/Payouts/Order.antt =====
-- Sorting: stable insertion by a comparison, the order of texts by code units, and the distinct items
-- of a list in the order of their first occurrence. On the hexadecimal digits of a hash the order of
-- `localeCompare` is that of the code units.
use steakout.Prelude.{
  Text, text_eq, Bool, true, false, ◌&&◌, ◌||◌, List, [], ◌∷◌, ltb, ◌==◌, if◌then◌else◌, filter,
  not,
}

unfoldable pub text_leb : Text → Text → Bool
text_leb [] t = true
text_leb (a ∷ s) [] = false
text_leb (a ∷ s) (b ∷ t) = ltb a b || (a == b && text_leb s t)

module _ {ℓ} {A : Type ℓ} (before : A → A → Bool) where
  -- An item goes in front of the first one that does not come before it.
  unfoldable pub insert : A → List A → List A
  insert a [] = a ∷ []
  insert a (b ∷ bs) = let later = b ∷ insert a bs in if before a b then a ∷ b ∷ bs else later

  unfoldable pub sort : List A → List A
  unfolding insert
  sort [] = []
  sort (a ∷ as') = insert a (sort as')

unfoldable pub distinct : List Text → List Text
distinct [] = []
distinct (t ∷ ts) = t ∷ filter (λ u. not (text_eq u t)) (distinct ts)
