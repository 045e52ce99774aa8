-- ===== src/Prelude/Js.antt =====
-- JavaScript numbers and dates, as far as the code looks at them.
use Prim.Native.Nat.{ℕ}
use mathlib.Core.Bool.{Bool, true, false}
use mathlib.Core.Option.{Option, none, some}
use steakout.Prelude.Tests.{ltb, leb}
use steakout.Prelude.Int.{ℤ, pos}

-- A value of type `number`: NaN and infinity, minus infinity, or a real number by its floor and
-- whether it is an integer.
pub data Num : Type 0 where
  nonfinite : Num
  minus_infinity : Num
  real : ℤ → Bool → Num

-- A field that should hold a number; `none` stands for any value that is no number.
abbrev pub NumField : Type 0
NumField = Option Num

abbrev pub int : ℕ → Num
int n = real (pos n) true

abbrev pub is_finite : Num → Bool
is_finite nonfinite = false
is_finite minus_infinity = false
is_finite (real z exact) = true

-- A stored timestamp. `at ms` is the text of `new Date(ms).toISOString()`. `malformed r` is a text
-- that `Date.parse` rejects and that sorts, as text, after exactly the timestamps below `r`.
pub data Iso : Type 0 where
  at : ℕ → Iso
  malformed : ℕ → Iso

abbrev pub parse_date : Iso → Option ℕ
parse_date (at ms) = some ms
parse_date (malformed r) = none

abbrev pub iso_rank : Iso → ℕ
iso_rank (at ms) = ms
iso_rank (malformed r) = r

-- `t > iso(ms)` and `t >= iso(ms)` on the texts, as SQLite compares them. A malformed text equals
-- no timestamp.
abbrev pub iso_gtb : Iso → ℕ → Bool
iso_gtb t ms = ltb ms (iso_rank t)

abbrev pub iso_geb : Iso → ℕ → Bool
iso_geb (at t) ms = leb ms t
iso_geb (malformed r) ms = ltb ms r

-- A number that is written with decimals: `digits / 10 ^ scale`.
pub record Decimal : Type 0 where
  pub digits : ℕ
  pub scale : ℕ
