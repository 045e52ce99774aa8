-- ===== src/Double/Laws.antt =====
-- Rounding to a double: bounds of its error, and quotients that stay exact under `Math.floor`.
use native.Mathlib.Nat.{
  div-add-mod, mul-le-mul_right, le-div_iff_mul-le, div-lt_iff_lt-mul, mul_comm, mul-one, one-mul,
  zero-mod, zero-div,
}
use steakout.Prelude.{
  ℕ, zero, suc, ◌+◌, ◌*◌, ◌/◌, ◌%◌, ◌^◌, ◌≤◌, ◌<◌, ◌≡◌, refl, ap, ◌∙◌, true, ltb, ◌⊎◌, Bool-cases,
  inl, inr, arith, ltb→lt,
}
use steakout.Double.{mantissas, spread, coarse, nearest, Double, round_within, round}

-- A whole number next to a quotient is within half a divisor of it.
half_off :
    (n d q r m : ℕ)
    → d * q + r ≡ n
    → (m ≤ q) ⊎ ((m ≤ q + 1) × (d ≤ 2 * r))
    → 2 * (m * d) ≤ 2 * n + d
half_off n d q r m e (inl h) =
    let step : m * d ≤ q * d = mul-le-mul_right d h in
    let swap : q * d ≡ d * q = mul_comm q d in omega (arith, step, swap, e)
half_off n d q r m e (inr (h, g)) =
    let step : m * d ≤ (q + 1) * d = mul-le-mul_right d h in
    let swap : (q + 1) * d ≡ d * q + d = grind arith in omega (arith, step, swap, e, g)

nearest_cases : (n d : ℕ) → (nearest n d ≤ n / d) ⊎ ((nearest n d ≤ n / d + 1) × (d ≤ 2 * (n % d)))
unfolding nearest
nearest_cases n d = elim (Bool-cases (ltb (2 * (n % d)) d)) [
  | inl low ↦ rw low (inl (omega arith))
  | inr up ↦ elim (Bool-cases (ltb d (2 * (n % d)))) [
    | inl high ↦ rw (up, high) (inr (omega arith, ground arith))
    | inr tie ↦ rw (up, tie) (inr (omega arith, ground arith))
  ]
]

nearest_le : (n d : ℕ) → 2 * (nearest n d * d) ≤ 2 * n + d
nearest_le n d = half_off n d (n / d) (n % d) (nearest n d) (div-add-mod n d) (nearest_cases n d)

le_nearest : (n d : ℕ) → n / d ≤ nearest n d
unfolding nearest
le_nearest n d = ground arith

nearest_one : (n : ℕ) → nearest n 1 ≡ n
unfolding nearest
nearest_one n = ground arith

-- What the doublings leave: the fraction multiplied by some factor, still of at most 53 binary
-- digits, and of no less than 53 unless the doublings ran out.
pub record IsSpread (k n p d : ℕ) (r : ℕ × ℕ) : Type 0 where
  pub factor : ℕ
  pub positive : 1 ≤ factor
  pub top : r.0 ≡ n * factor
  pub bottom : r.1 ≡ p * factor
  pub small : r.0 < mantissas * d
  pub full : (mantissas * d ≤ 2 * r.0) ⊎ (factor ≡ 2 ^ k)

doubled : (k n p d : ℕ) (r : ℕ × ℕ) → IsSpread k (2 * n) (2 * p) d r → IsSpread (suc k) n p d r
doubled k n p d r s = record {
  factor = 2 * s.factor;
  positive = omega (arith, s.positive);
  top = s.top ∙ grind arith;
  bottom = s.bottom ∙ grind arith;
  small = s.small;
  full = elim s.full [ inl f ↦ inl f | inr e ↦ inr (ap (λ v. 2 * v) e ∙ grind arith) ];
}

spread-IsSpread : (k n p d : ℕ) → 1 ≤ d → n < mantissas * d → IsSpread k n p d (spread k n p d)
unfolding spread
spread-IsSpread zero n p d h l = record {
  factor = 1;
  positive = omega arith;
  top = omega arith;
  bottom = omega arith;
  small = l;
  full = inr refl;
}
spread-IsSpread (suc k) n p d h l = elim (Bool-cases (ltb ((2 * n) / d) mantissas)) [
  | inl more ↦
      rw (spread, more)
        (doubled k n p d _
          (spread-IsSpread k (2 * n) (2 * p) d h ((div-lt_iff_lt-mul h).0 (ltb→lt _ _ more))))
  | inr done ↦
      rw (spread, done)
        (record {
          factor = 1;
          positive = omega arith;
          top = omega arith;
          bottom = omega arith;
          small = l;
          full = inl ((le-div_iff_mul-le h).0 (ground arith));
        })
]

is_below : (a c : ℕ) → a < c → ltb a c ≡ true
is_below a c h = ground arith

coarse_fine : (j n d : ℕ) → 1 ≤ d → n < mantissas * d → coarse (suc j) 1 n d ≡ 1
unfolding coarse
coarse_fine j n d h l =
    let fine : ltb (n / (d * 1)) mantissas ≡ true =
      let within : n / (d * 1) < mantissas =
        (div-lt_iff_lt-mul (omega (arith, h))).1 (omega (arith, l)) in
      is_below _ _ within in
    rw (coarse, fine) refl

-- What rounding does to a fraction below `2 ** 53`.
pub record IsRounded (n d : ℕ) (x : Double) : Type 0 where
  pub positive : 1 ≤ x.denominator
  pub exact_from : (w : ℕ) → w * d ≤ n → w * x.denominator ≤ x.numerator
  pub close : x.numerator * (d * mantissas) ≤ n * x.denominator * (mantissas + 1)
  pub bound : n * x.denominator < mantissas * d

close_full :
    (a d m : ℕ)
    → 2 * (m * d) ≤ 2 * a + d
    → mantissas * d ≤ 2 * a
    → m * (d * mantissas) ≤ a * (mantissas + 1)
close_full a d m h g =
    let swap : m * (d * mantissas) ≡ m * d * mantissas = grind arith in omega (arith, h, g, swap)

close_zero :
    (a d m : ℕ) → a ≡ 0 → m ≡ nearest a d → 1 ≤ d → m * (d * mantissas) ≤ a * (mantissas + 1)
unfolding nearest
close_zero a d m e g h =
    let none : m ≡ 0 = g ∙ rw (e, zero-mod d, zero-div d) (ground arith) in rw none (omega arith)

close_of :
    (k n d a f : ℕ)
    → 1 ≤ d
    → a ≡ n * f
    → (mantissas * d ≤ 2 * a) ⊎ (f ≡ 2 ^ k)
    → (n ≡ 0) ⊎ (mantissas * d ≤ 2 * (n * 2 ^ k))
    → nearest a d * (d * mantissas) ≤ a * (mantissas + 1)
close_of k n d a f h top (inl full) enough = close_full a d (nearest a d) (nearest_le a d) full
close_of k n d a f h top (inr e) (inl z) =
    close_zero a d (nearest a d) (top ∙ rw z (omega arith)) refl h
close_of k n d a f h top (inr e) (inr full) =
    close_full a d (nearest a d) (nearest_le a d) (rw (top, e) full)

exact_step : (w n d a p : ℕ) → 1 ≤ d → n * p ≡ a → w * d ≤ n → w * p ≤ nearest a d
exact_step w n d a p h e l =
    let step : w * d * p ≤ n * p = mul-le-mul_right p l in
    let swap : w * p * d ≡ w * d * p = grind arith in
    let quotient : w * p ≤ a / d = (le-div_iff_mul-le h).1 (omega (arith, step, swap, e)) in
    let up : a / d ≤ nearest a d = le_nearest a d in omega (arith, quotient, up)

module _ (k n d : ℕ) (r : ℕ × ℕ) (s : IsSpread k n 1 d r) where
  fine-IsRounded :
      1 ≤ d
      → (n ≡ 0) ⊎ (mantissas * d ≤ 2 * (n * 2 ^ k))
      → IsRounded n d (record { numerator = nearest r.0 d; denominator = r.1 })
  fine-IsRounded h enough =
      let below : r.1 ≡ s.factor = s.bottom ∙ omega arith in
      let scaled : n * r.1 ≡ r.0 = rw (below, s.top) refl in
      record {
        positive = rw below s.positive;
        exact_from = λ w l. exact_step w n d r.0 r.1 h scaled l;
        close = rw scaled (close_of k n d r.0 s.factor h s.top s.full enough);
        bound = rw scaled s.small;
      }

round_within-IsRounded :
    (k j n d : ℕ)
    → 1 ≤ d
    → n < mantissas * d
    → (n ≡ 0) ⊎ (mantissas * d ≤ 2 * (n * 2 ^ k))
    → IsRounded n d (round_within k (suc j) n d)
unfolding round_within
round_within-IsRounded k j n d h l enough =
    let s = spread-IsSpread k n 1 d h l in
    let fine = coarse_fine j _ d h s.small in
    rw (fine, mul-one d, one-mul _) (fine-IsRounded k n d _ s h enough)

pub round-IsRounded :
    (n d : ℕ)
    → 1 ≤ d
    → n < mantissas * d
    → (n ≡ 0) ⊎ (mantissas * d ≤ 2 * (n * 2 ^ 1074))
    → IsRounded n d (round n d)
unfolding round
round-IsRounded n d = round_within-IsRounded 1074 970 n d
