-- ===== src/Double.antt =====
-- The finite numbers from zero on of JavaScript (binary64): rounding to the nearest, a tie to the
-- even one, in natural numbers. What passes the largest double is not made Infinity here.
pub mod Laws
pub mod Quotients
use steakout.Prelude.{ℕ, zero, suc, ◌+◌, ◌*◌, ◌/◌, ◌%◌, ◌^◌, Bool, true, false, ltb, if◌then◌else◌}
use steakout.Prelude.Js.{Decimal}

-- The denominator is a power of two.
pub record Double : Type 0 where
  pub numerator : ℕ
  pub denominator : ℕ

-- `2 ** 53`
abbrev pub mantissas : ℕ
mantissas = 9007199254740992

-- Doubles the numerator and the denominator as long as the quotient has at most 53 binary digits.
-- The first number is the doublings left: there are 1074 below one.
unfoldable pub spread : ℕ → ℕ → ℕ → ℕ → ℕ × ℕ
spread zero n p d = (n, p)
spread (suc k) n p d = elim (ltb ((2 * n) / d) mantissas) [
  | true ↦ spread k (2 * n) (2 * p) d
  | false ↦ (n, p)
]

-- The distance of neighbours, for a quotient of more than 53 binary digits: at most `2 ** 971`.
unfoldable pub coarse : ℕ → ℕ → ℕ → ℕ → ℕ
coarse zero u n d = u
coarse (suc k) u n d = elim (ltb (n / (d * u)) mantissas) [
  | true ↦ u
  | false ↦ coarse k (2 * u) n d
]

-- The nearest whole number to a quotient, the even one if there are two.
unfoldable pub nearest : ℕ → ℕ → ℕ
nearest n d =
    if ltb (2 * (n % d)) d
    then n / d
    else if ltb d (2 * (n % d))
    then n / d + 1
    else n / d + (n / d) % 2

-- A quotient rounded, given the doublings that are possible up and down.
unfoldable pub round_within : ℕ → ℕ → ℕ → ℕ → Double
unfolding spread coarse nearest
round_within k j n d =
    let (n', p) = spread k n 1 d in
    let u = coarse j 1 n' d in record { numerator = u * nearest n' (d * u); denominator = p }

unfoldable pub round : ℕ → ℕ → Double
round n d = round_within 1074 971 n d

-- `x / y`
unfoldable pub over : Double → Double → Double
over x y = round (x.numerator * y.denominator) (x.denominator * y.numerator)

-- `Math.floor(x)`
unfoldable pub floor : Double → ℕ
floor x = x.numerator / x.denominator

-- What `Number` reads.
unfoldable pub number_of : Decimal → Double
number_of t = round t.digits (10 ^ t.scale)
