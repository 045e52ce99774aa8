-- ===== src/Adherence/Laws.antt =====
-- The loop of computeScheduleAdherence (server/src/observationScoring.ts) and the windows of its grid.
use native.Mathlib.Nat.{le-div_iff_mul-le, div-lt_iff_lt-mul}
use steakout.Prelude.{
  ℕ, zero, suc, ◌-◌, ◌*◌, ◌/◌, ◌≤◌, ◌<◌, ◌≡◌, refl, sym, ◌∙◌, Bool, false, ◌&&◌, ◌||◌, List, [],
  ◌∷◌, ◌++◌, ltb, leb, ◌==◌, if◌then◌else◌, any, length, arith, count, length-append, All, ◌↔◌,
  ltb→lt, Bool-cases, inl, inr,
}
use steakout.Prelude.Js.{Decimal}
use steakout.Adherence.{add_index, window_index, observed_indexes}

-- The numbers below a bound.
abbrev pub below : ℕ → List ℕ
below zero = []
below (suc n) = n ∷ below n

-- A start falls into a window, as the analysis counts them.
abbrev pub counts_in : Decimal → ℕ → List ℕ → ℕ → Bool
counts_in hours anchor starts w = any (λ s. window_index hours (s - anchor) == w) starts

-- A window of that many milliseconds holds a start.
abbrev pub holds : ℕ → ℕ → List ℕ → ℕ → Bool
holds window anchor starts w =
    any (λ s. leb (w * window) (s - anchor) && ltb (s - anchor) (suc w * window)) starts

abbrev has : List ℕ → ℕ → Bool
has xs w = any (λ j. j == w) xs

any-snoc : (p : ℕ → Bool) (xs : List ℕ) (x : ℕ) → any p (xs ++ x ∷ []) ≡ (any p xs || p x)
any-snoc p [] x = ground arith
any-snoc p (y ∷ xs) x = ground (arith, any-snoc p xs x)

count-out :
    (f : ℕ → Bool) (i n : ℕ) → n ≤ i → count (λ w. f w || (i == w)) (below n) ≡ count f (below n)
count-out f i zero h = refl
count-out f i (suc n) h = ground (arith, count-out f i n (omega (arith, h)))

count-in :
    (f : ℕ → Bool) (i n : ℕ)
    → i < n
    → f i ≡ false
    → count (λ w. f w || (i == w)) (below n) ≡ suc (count f (below n))
count-in f i zero h q = absurd (omega (arith, h))
count-in f i (suc n) h q = ground (arith, count-out f i n, count-in f i n)

same_test :
    (q w x y t : ℕ) → (w ≤ q) ↔ (x ≤ t) → (q < suc w) ↔ (t < y) → (q == w) ≡ (leb x t && ltb t y)
same_test q w x y t f g = ground (arith, f.0, f.1, g.0, g.1)

pub index_in :
    (window t w : ℕ)
    → 1 ≤ window
    → (t / window == w) ≡ (leb (w * window) t && ltb t (suc w * window))
index_in window t w h =
    same_test (t / window) w (w * window) (suc w * window) t (le-div_iff_mul-le h)
      (div-lt_iff_lt-mul h)

pub any_cong : (p q : ℕ → Bool) (xs : List ℕ) → All (λ x. p x ≡ q x) xs → any p xs ≡ any q xs
any_cong p q [] h = refl
any_cong p q (x ∷ xs) (e, h) = rw (e, any_cong p q xs h)

pub count_cong :
    (p q : ℕ → Bool) (n : ℕ) → ((i : ℕ) → i < n → p i ≡ q i) → count p (below n) ≡ count q (below n)
count_cong p q zero h = refl
count_cong p q (suc n) h = rw (h n (omega arith), count_cong p q n (λ i l. h i (omega (arith, l))))

or_assoc : (a b c : Bool) → ((a || b) || c) ≡ (a || (b || c))
or_assoc a b c = ground arith

or_false : (b : Bool) → (b || false) ≡ b
or_false b = ground arith

-- One step of the loop.
abbrev next : ℕ → ℕ → List ℕ → List ℕ
next expected q xs = if ltb q expected then add_index q xs else xs

has-next :
    (expected q i : ℕ) (xs : List ℕ)
    → i < expected
    → has (next expected q xs) i ≡ (has xs i || (q == i))
unfolding add_index
has-next expected q i xs h = ground (arith, any-snoc (λ j. j == i) xs q)

length-next :
    (expected q : ℕ) (xs : List ℕ)
    → length xs ≡ count (has xs) (below expected)
    → length (next expected q xs) ≡ count (has (next expected q xs)) (below expected)
unfolding add_index
length-next expected q xs h = elim (Bool-cases (ltb q expected)) [
  | inr out ↦ rw out h
  | inl l ↦ elim (Bool-cases (has xs q)) [
    | inl old ↦ rw (l, old) h
    | inr new ↦
        rw (l, new)
          (length-append xs (q ∷ [])
            ∙ omega (
              arith,
              h,
              count-in (has xs) q expected (ltb→lt q expected l) new,
              count_cong (has (xs ++ q ∷ [])) (λ w. has xs w || (q == w)) expected
                  (λ i l'. any-snoc (λ j. j == i) xs q),
            ))
  ]
]

module _ (hours : Decimal) (anchor expected : ℕ) where
  -- The starts seen so far have indexes; those below the bound are in the list, once each.
  pub length-observed :
      (xs starts : List ℕ)
      → length xs ≡ count (has xs) (below expected)
      → length (observed_indexes hours anchor expected xs starts)
        ≡ count (λ w. has xs w || counts_in hours anchor starts w) (below expected)
  unfolding observed_indexes
  length-observed xs [] h =
      h ∙ sym (count_cong (λ w. has xs w || false) (has xs) expected (λ i l. or_false (has xs i)))
  length-observed xs (s ∷ starts) h =
      let q = window_index hours (s - anchor) in
      length-observed (next expected q xs) starts (length-next expected q xs h)
      ∙ count_cong (λ w. has (next expected q xs) w || counts_in hours anchor starts w)
          (λ w. has xs w || counts_in hours anchor (s ∷ starts) w) expected
          (λ i l. rw (has-next expected q i xs l) (or_assoc (has xs i) (q == i) _))
