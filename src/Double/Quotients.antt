-- ===== src/Double/Quotients.antt =====
-- Quotients of doubles that stay exact under `Math.floor`: a time over a whole number of units.
use native.Mathlib.Nat.{
  mul-le-mul_left, mul-le-mul_right, le-div_iff_mul-le, div-lt_iff_lt-mul, le_of_mul-le-mul_right,
  one-le-mul, div-mul-le_self, mul-le-mul,
}
use steakout.Prelude.{
  ℕ, zero, suc, ◌+◌, ◌*◌, ◌/◌, ◌^◌, ◌≤◌, ◌<◌, ◌≡◌, refl, ◌⊎◌, Bool-cases, inl, inr, arith, ltb,
  ltb→lt, ◌==◌,
}
use steakout.Double.{mantissas, Double, round, over, floor}
use steakout.Double.Laws.{IsRounded, round-IsRounded}

-- A whole number is read exactly.
whole_exact : (n : ℕ) (y : Double) → IsRounded n 1 y → y.numerator ≡ n * y.denominator
whole_exact n y r =
    let low : n * y.denominator ≤ y.numerator = r.exact_from n (omega arith) in
    let high = r.close in let small = r.bound in omega (arith, low, high, small)

one_times : (t d : ℕ) → 1 ≤ t → d ≤ t * d
one_times t d h = grind arith

zero_times : (a c : ℕ) → a ≡ 0 → a * c ≡ 0
zero_times a c h = rw h (omega arith)

normal_of :
    (a c : ℕ) → a ≤ 37778931862957161709568 * mantissas → 1 ≤ c → mantissas * a ≤ 2 * (c * 2 ^ 1074)
normal_of a c h l = omega (arith, h, l)

zero_or_more : (t : ℕ) → (t ≡ 0) ⊎ (1 ≤ t)
zero_or_more zero = inl refl
zero_or_more (suc t) = inr (omega arith)

enough :
    (t b : ℕ)
    → 1 ≤ b
    → b ≤ 4194304
    → (t ≡ 0) ⊎ (1 ≤ t)
    → (t ≡ 0) ⊎ (mantissas * b ≤ 2 * (t * 2 ^ 1074))
enough t b hb lb (inl z) = inl z
enough t b hb lb (inr some_time) = inr (omega (arith, lb, some_time))

below_product :
    (a c n p : ℕ) → a < mantissas * c → 1 ≤ n → 1 ≤ p → a * p < mantissas * (c * (n * p))
below_product a c n p h hn hp =
    let step : suc a * p ≤ mantissas * c * p = mul-le-mul_right p h in
    let one_more : suc a * p ≡ a * p + p = grind arith in
    let more : c * p ≤ n * (c * p) = one_times n (c * p) hn in
    let order : mantissas * c * p ≡ mantissas * (c * p) = grind arith in
    let order' : c * (n * p) ≡ n * (c * p) = grind arith in
    omega (arith, step, one_more, more, order, order', hp)

module _ (t b n : ℕ) (x y : Double) (rx : IsRounded t b x) (ry : IsRounded n 1 y) where
  short : 1 ≤ b → t < 2251799813685248 → x.numerator < mantissas * x.denominator
  short hb ht =
      let step : t * x.denominator ≤ 2251799813685248 * x.denominator =
        mul-le-mul_right _ (omega (arith, ht)) in
      let swap : x.numerator * mantissas ≤ x.numerator * (b * mantissas) =
        mul-le-mul_left x.numerator (omega (arith, hb)) in
      let close = rx.close in let p = rx.positive in omega (arith, step, swap, close, p)

  -- A window that has passed exactly is counted.
  counted :
      (w : ℕ) → w * (b * n) ≤ t → w * (x.denominator * y.numerator) ≤ x.numerator * y.denominator
  counted w h =
      let ordered : w * n * b ≡ w * (b * n) = grind arith in
      let start : w * n * x.denominator ≤ x.numerator =
        rx.exact_from (w * n) (omega (arith, h, ordered)) in
      let step = mul-le-mul_right y.denominator start in
      let e = whole_exact n y ry in
      let regrouped : w * n * x.denominator * y.denominator
          ≡ w * (x.denominator * (n * y.denominator)) =
        grind arith in
      rw e (omega (arith, step, regrouped))

  none_rounded : 1 ≤ b → t ≡ 0 → x.numerator ≡ 0
  none_rounded hb e =
      let close : x.numerator * (b * mantissas) ≤ t * x.denominator * (mantissas + 1) = rx.close in
      let none : t * x.denominator ≡ 0 = rw e (omega arith) in
      let swap : x.numerator * mantissas ≤ x.numerator * (b * mantissas) =
        mul-le-mul_left x.numerator (omega (arith, hb)) in
      omega (arith, close, none, swap)

  -- The quotient is zero, or large enough to be a normal number.
  wide :
      1 ≤ b
      → b ≤ 4194304
      → (t ≡ 0) ⊎ (1 ≤ t)
      → (x.numerator * y.denominator ≡ 0)
        ⊎ (mantissas * (x.denominator * y.numerator) ≤ 2 * (x.numerator * y.denominator * 2 ^ 1074))
  wide hb lb (inl none) = inl (zero_times _ _ (none_rounded hb none))
  wide hb lb (inr some_time) = elim (Bool-cases (x.numerator * y.denominator == 0)) [
    | inl z ↦ inl (ground arith)
    | inr some_hours ↦ inr (
        let p : x.denominator ≤ t * x.denominator = one_times t x.denominator some_time in
        let q = rx.bound in
        let r = ry.bound in
        let small : x.denominator * (n * y.denominator) ≤ 37778931862957161709568 * mantissas =
          (let of_hours : x.denominator ≤ 37778931862957161709568 = omega (arith, p, q, lb) in
            let of_whole : n * y.denominator ≤ mantissas = omega (arith, r) in
            mul-le-mul of_hours of_whole) in
        let some_quotient : 1 ≤ x.numerator * y.denominator = ground arith in
        rw (whole_exact n y ry) (normal_of _ _ small some_quotient))
  ]

-- What two roundings add up to is less than one unit, for a time below `2 ** 51`.
no_room :
    (t b n w xn xd : ℕ)
    → 1 ≤ xd
    → t < 2251799813685248
    → suc t ≤ w * (b * n)
    → xn * (b * mantissas) ≤ t * xd * (mantissas + 1)
    → w * n * xd * mantissas ≤ xn * (mantissas + 1)
    → ⊥
no_room t b n w xn xd hx ht late close far =
    let scaled : w * n * xd * mantissas * b ≤ xn * (mantissas + 1) * b = mul-le-mul_right b far in
    let left : w * n * xd * mantissas * b ≡ w * (b * n) * xd * mantissas = grind arith in
    let right : xn * (mantissas + 1) * b ≡ xn * b * (mantissas + 1) = grind arith in
    let last : xn * (b * mantissas) ≡ xn * b * mantissas = grind arith in
    let passed : suc t * xd ≤ w * (b * n) * xd = mul-le-mul_right xd late in
    let one_more : suc t * xd ≡ t * xd + xd = grind arith in
    let early : t * xd ≤ 2251799813685247 * xd = mul-le-mul_right xd (omega (arith, ht)) in
    omega (arith, scaled, left, right, last, passed, one_more, early, close, hx)

module _ (t b n : ℕ) (x y : Double) (rx : IsRounded t b x) (ry : IsRounded n 1 y) where
  over_of :
      1 ≤ b
      → b ≤ 4194304
      → 1 ≤ n
      → t < 2251799813685248
      → IsRounded
          (x.numerator * y.denominator)
          (x.denominator * y.numerator)
          (round (x.numerator * y.denominator) (x.denominator * y.numerator))
  over_of hb lb hn ht =
      let whole = whole_exact n y ry in
      let some_n : 1 ≤ y.numerator = rw whole (one-le-mul hn ry.positive) in
      let within = short t b n x y rx ry hb ht in
      round-IsRounded _ _ (one-le-mul rx.positive some_n)
        (rw whole (below_product x.numerator x.denominator n y.denominator within hn ry.positive))
        (wide t b n x y rx ry hb lb (zero_or_more t))

cancel :
    (w n xd xn yn yd zn zd : ℕ)
    → 1 ≤ yd
    → 1 ≤ zd
    → yn ≡ n * yd
    → w * zd ≤ zn
    → zn * (xd * yn * mantissas) ≤ xn * yd * zd * (mantissas + 1)
    → w * n * xd * mantissas ≤ xn * (mantissas + 1)
cancel w n xd xn yn yd zn zd hy hz e up close =
    let step : w * zd * (xd * yn * mantissas) ≤ zn * (xd * yn * mantissas) =
      mul-le-mul_right _ up in
    let left : w * zd * (xd * (n * yd) * mantissas) ≡ w * n * xd * mantissas * (yd * zd) =
      grind arith in
    let right : xn * yd * zd * (mantissas + 1) ≡ xn * (mantissas + 1) * (yd * zd) = grind arith in
    let left' : w * zd * (xd * yn * mantissas) ≡ w * n * xd * mantissas * (yd * zd) = rw e left in
    let both : w * n * xd * mantissas * (yd * zd) ≤ xn * (mantissas + 1) * (yd * zd) =
      omega (arith, step, left', right, close) in
    le_of_mul-le-mul_right both (one-le-mul hy hz)

below_of : (a c : ℕ) → ((c ≤ a) → ⊥) → a < c
below_of a c h = elim (Bool-cases (ltb a c)) [
  | inl l ↦ ltb→lt a c l
  | inr g ↦ absurd (h (ground arith))
]

module _ (t b n : ℕ) (x y z : Double) (rx : IsRounded t b x) (ry : IsRounded n 1 y)
    (rz : IsRounded (x.numerator * y.denominator) (x.denominator * y.numerator) z) where
  -- A window that has not passed is not counted.
  uncounted :
      (w : ℕ) → t < 2251799813685248 → suc t ≤ w * (b * n) → w * z.denominator ≤ z.numerator → ⊥
  uncounted w ht late counted_up =
      no_room t b n w x.numerator x.denominator rx.positive ht late rx.close (
        cancel w n x.denominator x.numerator y.numerator y.denominator z.numerator z.denominator
          ry.positive rz.positive (whole_exact n y ry) counted_up rz.close)

  floor_of : 1 ≤ b * n → t < 2251799813685248 → floor z ≡ t / (b * n)
  unfolding floor
  floor_of h ht =
      let q = t / (b * n) in
      let passed : q * (b * n) ≤ t = div-mul-le_self t (b * n) in
      let low : q * z.denominator ≤ z.numerator =
        rz.exact_from q (counted t b n x y rx ry q passed) in
      let late : t < suc q * (b * n) = (div-lt_iff_lt-mul h).0 (omega arith) in
      let high : z.numerator < suc q * z.denominator =
        below_of _ _ (λ up. uncounted (suc q) ht (omega (arith, late)) up) in
      let at_least : q ≤ z.numerator / z.denominator = (le-div_iff_mul-le rz.positive).1 low in
      let at_most : z.numerator / z.denominator < suc q = (div-lt_iff_lt-mul rz.positive).1 high in
      omega (arith, at_least, at_most)

-- The whole hours, or other units, of a time under `2 ** 51`, divided by a whole number of them:
-- `Math.floor` of the two quotients of doubles is the whole number of times that it fits exactly.
pub floor-exact :
    (t b n : ℕ)
    → 1 ≤ b
    → b ≤ 4194304
    → 1 ≤ n
    → n < mantissas
    → t < 2251799813685248
    → floor (over (round t b) (round n 1)) ≡ t / (b * n)
unfolding over
floor-exact t b n hb lb hn ln ht =
    let rx : IsRounded t b (round t b) =
      round-IsRounded t b hb (omega (arith, hb, ht)) (enough t b hb lb (zero_or_more t)) in
    let ry : IsRounded n 1 (round n 1) =
      round-IsRounded n 1 (omega arith) (omega (arith, ln)) (inr (omega (arith, hn))) in
    let rz = over_of t b n (round t b) (round n 1) rx ry hb lb hn ht in
    floor_of t b n _ _ _ rx ry rz (one-le-mul hb hn) ht
