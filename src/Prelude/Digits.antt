-- ===== src/Prelude/Digits.antt =====
-- Numbers in decimal, as JavaScript writes and reads them.
use Prim.Native.Nat.{ℕ, zero, suc, ◌+◌, ◌-◌, ◌*◌, ◌/◌, ◌%◌, ◌<◌}
use mathlib.Core.Path.{◌≡◌, refl, ap, ◌∙◌}
use mathlib.Core.Logic.{inl, inr}
use mathlib.Core.Bool.{Bool, true, false, ◌&&◌}
use mathlib.Core.List.{[], ◌∷◌, ◌++◌}
use native.Mathlib.Omega.{arith}
use steakout.Prelude.Tests.{ltb, leb, if◌then◌else◌, Bool-cases}
use steakout.Prelude.Lists.{all, all-append}
use steakout.Prelude.Strings.{Text, is_empty}

abbrev pub is_digit : ℕ → Bool
is_digit c = leb b'0' c && leb c b'9'

-- The decimal digits of a number, as `String(n)` gives them. The fuel is the number and one.
unfoldable pub digits_from : ℕ → ℕ → Text
digits_from zero n = []
digits_from (suc fuel) n =
    let front = digits_from fuel (n / 10) in
    (if ltb n 10 then [] else front) ++ (b'0' + n % 10) ∷ []

unfoldable pub digits : ℕ → Text
unfolding digits_from
digits n = digits_from (suc n) n

-- The number that some digits write.
unfoldable pub number_from : ℕ → Text → ℕ
number_from n [] = n
number_from n (x ∷ xs) = number_from (10 * n + (x - b'0')) xs

pub number_from-snoc :
    (n : ℕ) (t : Text) (x : ℕ) → number_from n (t ++ x ∷ []) ≡ 10 * number_from n t + (x - b'0')
unfolding number_from
number_from-snoc n [] x = refl
number_from-snoc n (y ∷ ys) x = number_from-snoc (10 * n + (y - b'0')) ys x

last_digit : (n : ℕ) → ltb n 10 ≡ true → 10 * 0 + (48 + n % 10 - 48) ≡ n
last_digit n h = ground arith

other_digits : (n : ℕ) → 10 * (n / 10) + (48 + n % 10 - 48) ≡ n
other_digits n = omega arith

smaller : (n fuel : ℕ) → ltb n 10 ≡ false → n < suc fuel → n / 10 < fuel
smaller n fuel h l = ground arith

-- The digits of a number are read as that number.
pub number-digits_from : (fuel n : ℕ) → n < fuel → number_from 0 (digits_from fuel n) ≡ n
unfolding digits_from number_from
number-digits_from zero n h = absurd (omega (arith, h))
number-digits_from (suc fuel) n h = elim (Bool-cases (ltb n 10)) [
  | inl one ↦ rw one (last_digit n one)
  | inr more ↦ rw more (
      number_from-snoc 0 (digits_from fuel (n / 10)) (48 + n % 10)
      ∙ ap (λ k. 10 * k + (48 + n % 10 - 48))
          (number-digits_from fuel (n / 10) (smaller n fuel more h))
      ∙ other_digits n)
]

digit_unit : (n : ℕ) → is_digit (48 + n % 10) ≡ true
digit_unit n = ground arith

digits_from-all_digits : (fuel n : ℕ) → all is_digit (digits_from fuel n) ≡ true
unfolding digits_from
digits_from-all_digits zero n = refl
digits_from-all_digits (suc fuel) n = elim (Bool-cases (ltb n 10)) [
  | inl one ↦ rw (one, digit_unit n) refl
  | inr more ↦
      rw
        (
          more,
          all-append is_digit (digits_from fuel (n / 10)) ((48 + n % 10) ∷ []),
          digits_from-all_digits fuel (n / 10),
          digit_unit n,
        )
        refl
]

filled-snoc : (t : Text) (x : ℕ) → is_empty (t ++ x ∷ []) ≡ false
filled-snoc [] x = refl
filled-snoc (y ∷ t) x = refl

digits_from-filled : (fuel n : ℕ) → is_empty (digits_from (suc fuel) n) ≡ false
unfolding digits_from
digits_from-filled fuel n = filled-snoc _ (48 + n % 10)

pub number-digits : (n : ℕ) → number_from 0 (digits n) ≡ n
unfolding digits
number-digits n = number-digits_from (suc n) n (omega arith)

pub digits-all_digits : (n : ℕ) → all is_digit (digits n) ≡ true
unfolding digits
digits-all_digits n = digits_from-all_digits (suc n) n

pub digits-filled : (n : ℕ) → is_empty (digits n) ≡ false
unfolding digits
digits-filled n = digits_from-filled n n
