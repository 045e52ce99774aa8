-- ===== src/Prelude/Strings.antt =====
-- JavaScript text as the list of its code units, with `trim` and the equality test.
use Prim.Native.Char.{code}
use Prim.Native.String.{String}
use Prim.Native.Nat.{ℕ}
use mathlib.Core.Path.{◌≡◌, refl}
use mathlib.Core.Logic.{inl, inr, ◌↔◌}
use mathlib.Core.Bool.{Bool, true, false, ◌&&◌, ◌||◌}
use mathlib.Core.List.{List, [], ◌∷◌, ◌++◌, reverse}
use native.Mathlib.Omega.{arith}
use steakout.Prelude.Tests.{Bool-cases, ◌==◌, leb, if◌then◌else◌}

abbrev pub Text : Type 0
Text = List ℕ

-- A literal of the source, unit by unit.
abbrev pub text : String → Text
text String.[] = []
text (String.◌∷◌ c s) = code c ∷ text s

unfoldable pub text_eq : Text → Text → Bool
text_eq [] [] = true
text_eq (a ∷ s) (b ∷ t) = a == b && text_eq s t
text_eq _ _ = false

pub text_eq_iff : (s t : Text) → (text_eq s t ≡ true) ↔ (s ≡ t)
unfolding text_eq
text_eq_iff [] [] = ground arith
text_eq_iff [] (b ∷ t) = ground arith
text_eq_iff (a ∷ s) [] = ground arith
text_eq_iff (a ∷ s) (b ∷ t) = ground (arith, text_eq_iff s t)

pub text_eq_refl : (s : Text) → text_eq s s ≡ true
text_eq_refl s = (text_eq_iff s s).1 refl

-- `\s` of a regular expression, and what `trim` removes: white space and line ends.
unfoldable pub is_space : ℕ → Bool
is_space c =
    (leb 9 c && leb c 13)
    || c == 32
    || c == 160
    || c == 0x1680
    || (leb 0x2000 c && leb c 0x200a)
    || c == 0x2028
    || c == 0x2029
    || c == 0x202f
    || c == 0x205f
    || c == 0x3000
    || c == 0xfeff

unfoldable pub trim_start : Text → Text
trim_start [] = []
trim_start (c ∷ s) = let rest = trim_start s in if is_space c then rest else c ∷ s

unfoldable pub trim : Text → Text
unfolding trim_start is_space
trim s = reverse (trim_start (reverse (trim_start s)))

abbrev pub is_empty : Text → Bool
is_empty [] = true
is_empty (c ∷ s) = false

-- The unit in front of the parts of a text that is split at another unit.
abbrev add_unit : ℕ → ℕ → List Text → List Text
add_unit c x [] = (x ∷ []) ∷ []
add_unit c x (part ∷ parts) = if x == c then [] ∷ part ∷ parts else (x ∷ part) ∷ parts

-- `t.split(c)` for a separator of one unit.
unfoldable pub split_on : ℕ → Text → List Text
split_on c [] = [] ∷ []
split_on c (x ∷ xs) = add_unit c x (split_on c xs)

abbrev pub has_unit : ℕ → Text → Bool
has_unit c [] = false
has_unit c (x ∷ xs) = (x == c) || has_unit c xs

pub split_on-none : (c : ℕ) (t : Text) → has_unit c t ≡ false → split_on c t ≡ t ∷ []
unfolding split_on
split_on-none c [] h = refl
split_on-none c (x ∷ xs) h =
    let other : (x == c) ≡ false = ground arith in
    rw (split_on-none c xs (ground arith), other) refl

separator_unit :
    (c : ℕ) (part : Text) (parts : List Text) → add_unit c c (part ∷ parts) ≡ [] ∷ part ∷ parts
separator_unit c part parts = let same : (c == c) ≡ true = ground arith in rw same refl

unit_separator :
    (c x : ℕ) (parts : List Text) → add_unit c c (add_unit c x parts) ≡ [] ∷ add_unit c x parts
unit_separator c x [] = separator_unit c (x ∷ []) []
unit_separator c x (part ∷ parts) = elim (Bool-cases (x == c)) [
  | inl e ↦ rw e (separator_unit c [] (part ∷ parts))
  | inr e ↦ rw e (separator_unit c (x ∷ part) parts)
]

split_on-separator : (c : ℕ) (t : Text) → split_on c (c ∷ t) ≡ [] ∷ split_on c t
unfolding split_on
split_on-separator c [] = separator_unit c [] []
split_on-separator c (x ∷ xs) = unit_separator c x (split_on c xs)

-- The part before the first separator.
pub split_on-first :
    (c : ℕ) (s t : Text) → has_unit c s ≡ false → split_on c (s ++ c ∷ t) ≡ s ∷ split_on c t
unfolding split_on
split_on-first c [] t h = split_on-separator c t
split_on-first c (x ∷ xs) t h =
    let other : (x == c) ≡ false = ground arith in
    rw (split_on-first c xs t (ground arith), other) refl

-- A text without the separator, the separator, and the rest.
pub split_on-append :
    (c : ℕ) (s t : Text)
    → has_unit c s ≡ false
    → has_unit c t ≡ false
    → split_on c (s ++ c ∷ t) ≡ s ∷ t ∷ []
unfolding split_on
split_on-append c [] t h k = rw (split_on-none c t k) (ground arith)
split_on-append c (x ∷ xs) t h k =
    let other : (x == c) ≡ false = ground arith in
    rw (split_on-append c xs t (ground arith) k, other) refl
