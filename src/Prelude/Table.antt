-- ===== src/Prelude/Table.antt =====
-- A SQL table as a list of rows: UPDATE, and what it does to a lookup by key.
use mathlib.Core.Path.{◌≡◌, refl}
use mathlib.Core.Bool.{Bool, true}
use mathlib.Core.Option.{Option, none, some}
use mathlib.Core.List.{List, [], ◌∷◌, ◌++◌}
use native.Mathlib.Omega.{arith}
use steakout.Prelude.Tests.{if◌then◌else◌, Bool-cases}
use mathlib.Core.Logic.{inl, inr}
use steakout.Prelude.Lists.{find}

module _ {ℓ} {A : Type ℓ} where
  -- `UPDATE … SET f WHERE p`; the number of rows changed is `count p`.
  unfoldable pub update_rows : (A → Bool) → (A → A) → List A → List A
  update_rows p f [] = []
  update_rows p f (x ∷ xs) = (if p x then f x else x) ∷ update_rows p f xs

  abbrev pub set_row : (A → Bool) → (A → A) → A → A
  set_row p f x = if p x then f x else x

  abbrev pub set_found : (A → Bool) → (A → A) → Option A → Option A
  set_found p f none = none
  set_found p f (some x) = some (set_row p f x)

  abbrev pub found_or : Option A → Option A → Option A
  found_or other none = other
  found_or other (some x) = some x

module _ {ℓ} {A : Type ℓ} (q : A → Bool) where
  -- A lookup by a key that the update leaves alone finds the row it found, updated.
  pub find-update :
      (p : A → Bool) (f : A → A) (xs : List A)
      → ((x : A) → q (f x) ≡ q x)
      → find q (update_rows p f xs) ≡ set_found p f (find q xs)
  unfolding update_rows
  find-update p f [] h = refl
  find-update p f (x ∷ xs) h = elim (Bool-cases (p x)) [
    | inl e ↦
        rw (e, h x)
          (elim (Bool-cases (q x)) [ inl k ↦ rw (k, e) refl | inr k ↦ rw k (find-update p f xs h) ])
    | inr e ↦
        rw e
          (elim (Bool-cases (q x)) [ inl k ↦ rw (k, e) refl | inr k ↦ rw k (find-update p f xs h) ])
  ]

  pub find-append :
      (xs : List A) (x : A)
      → find q (xs ++ x ∷ []) ≡ found_or (if q x then some x else none) (find q xs)
  find-append [] x = refl
  find-append (y ∷ ys) x = elim (Bool-cases (q y)) [
    | inl e ↦ rw e refl
    | inr e ↦ rw e (find-append ys x)
  ]

  pub find-holds : (xs : List A) (x : A) → find q xs ≡ some x → q x ≡ true
  find-holds [] x h = absurd (ground arith)
  find-holds (y ∷ ys) x h = ground (arith, find-holds ys x)
