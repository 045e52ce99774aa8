-- ===== src/Adherence/Windows.antt =====
-- computeScheduleAdherence (server/src/observationScoring.ts): anchor and windows.
use steakout.Prelude.{
  ℕ, zero, suc, ◌-◌, ◌≤◌, ◌≡◌, refl, sym, ◌∙◌, Bool, true, false, ◌||◌, some, List, [], ◌∷◌, ltb,
  leb, ◌==◌, any, arith, count, All, map, Bool-cases, inl, inr, leb→le, if◌then◌else◌,
}
use steakout.Prelude.Js.{at, Decimal}
use steakout.Payouts.Order.{insert, sort}
use steakout.Adherence.{
  parse_all, window_index, Adherence, windows, graded, from_ordered, normal_hours,
  compute_schedule_adherence,
}
use steakout.Adherence.Laws.{below, counts_in, length-observed, count_cong}

-- The first item of a list is its least.
abbrev IsLed : List ℕ → Type 0
IsLed [] = Unit
IsLed (a ∷ as') = All (λ x. a ≤ x) as'

All-le : (a b : ℕ) (xs : List ℕ) → a ≤ b → All (λ x. b ≤ x) xs → All (λ x. a ≤ x) xs
All-le a b [] h k = tt
All-le a b (x ∷ xs) h (p, k) = (omega (arith, h, p), All-le a b xs h k)

All-insert :
    (b a : ℕ) (xs : List ℕ) → b ≤ a → All (λ x. b ≤ x) xs → All (λ x. b ≤ x) (insert leb a xs)
unfolding insert
All-insert b a [] h k = (h, tt)
All-insert b a (x ∷ xs) h (p, k) =
    elim (leb a x) as (λ c. All (λ y. b ≤ y) (if c then a ∷ x ∷ xs else x ∷ insert leb a xs)) [
      | true ↦ (h, (p, k))
      | false ↦ (p, All-insert b a xs h k)
    ]

le_of_not : (a x : ℕ) → leb a x ≡ false → x ≤ a
le_of_not a x h = ground arith

IsLed-insert : (a : ℕ) (xs : List ℕ) → IsLed xs → IsLed (insert leb a xs)
unfolding insert
IsLed-insert a [] h = tt
IsLed-insert a (x ∷ xs) h = elim (Bool-cases (leb a x)) [
  | inl l ↦ rw l (leb→le a x l, All-le a x xs (leb→le a x l) h)
  | inr g ↦ rw g (All-insert x a xs (omega (arith, le_of_not a x g)) h)
]

sort-IsLed : (xs : List ℕ) → IsLed (sort leb xs)
unfolding sort
sort-IsLed [] = tt
sort-IsLed (x ∷ xs) = IsLed-insert x (sort leb xs) (sort-IsLed xs)

any-insert : (p : ℕ → Bool) (a : ℕ) (xs : List ℕ) → any p (insert leb a xs) ≡ (p a || any p xs)
unfolding insert
any-insert p a [] = refl
any-insert p a (x ∷ xs) = ground (arith, any-insert p a xs)

any-sort : (p : ℕ → Bool) (xs : List ℕ) → any p (sort leb xs) ≡ any p xs
unfolding sort
any-sort p [] = refl
any-sort p (x ∷ xs) = rw (any-insert p x (sort leb xs), any-sort p xs) refl

none_before : (a : ℕ) (xs : List ℕ) → All (λ x. a ≤ x) xs → any (λ x. ltb x a) xs ≡ false
none_before a [] h = refl
none_before a (x ∷ xs) (p, h) = ground (arith, none_before a xs h, p)

parse_all-at : (starts : List ℕ) → parse_all (map at starts) ≡ some starts
unfolding parse_all
parse_all-at [] = refl
parse_all-at (s ∷ starts) = rw (parse_all-at starts) refl

count-none : (n : ℕ) → 0 ≡ count (λ w. any (λ j. j == w) []) (below n)
count-none zero = refl
count-none (suc n) = count-none n

normal_hours-positive :
    (n scale : ℕ)
    → normal_hours (some (record { digits = suc n; scale = scale }))
      ≡ some (record { digits = suc n; scale = scale })
unfolding normal_hours
normal_hours-positive n scale =
    let positive : (suc n == 0) ≡ false = ground arith in rw positive refl

-- What the windows of a decimal interval are, by the index that the analysis gives a time. The
-- anchor is the earliest start.
pub record IsIndexed (hours : Decimal) (end_ms : ℕ) (starts : List ℕ) (a : Adherence) : Type 0 where
  pub anchor : ℕ
  pub anchored : a.anchor_at ≡ some anchor
  pub is_start : any (λ s. s == anchor) starts ≡ true
  pub earliest : any (λ s. ltb s anchor) starts ≡ false
  pub expected : a.expected_windows ≡ window_index hours (end_ms - anchor)
  pub observed :
      a.observed_windows ≡ count (counts_in hours anchor starts) (below a.expected_windows)

module _ (n scale end_ms : ℕ) where
  abbrev interval : Decimal
  interval = record { digits = suc n; scale = scale }

  from_ordered-IsIndexed :
      (anchor : ℕ) (rest : List ℕ)
      → All (λ x. anchor ≤ x) rest
      → (a : Adherence) × (from_ordered (some interval) (anchor ∷ rest) (at end_ms) ≡ some a)
        × IsIndexed interval end_ms (anchor ∷ rest) a
  unfolding from_ordered graded windows
  from_ordered-IsIndexed anchor rest h =
      let expected = window_index interval (end_ms - anchor) in
      (
        _,
        refl,
        record {
          anchor = anchor;
          anchored = refl;
          is_start = ground arith;
          earliest = none_before anchor (anchor ∷ rest) (omega arith, h);
          expected = refl;
          observed =
              length-observed interval anchor expected [] (anchor ∷ rest) (count-none expected);
        },
      )

  from_sorted-IsIndexed :
      (xs starts : List ℕ)
      → IsLed xs
      → ((p : ℕ → Bool) → any p xs ≡ any p starts)
      → any (λ x. true) starts ≡ true
      → (a : Adherence) × (from_ordered (some interval) xs (at end_ms) ≡ some a)
        × IsIndexed interval end_ms starts a
  from_sorted-IsIndexed [] starts h same some_start =
      absurd (ground (arith, same (λ x. true), some_start))
  from_sorted-IsIndexed (anchor ∷ rest) starts h same some_start =
      let (a, computed, g) = from_ordered-IsIndexed anchor rest h in
      (
        a,
        computed,
        record {
          anchor = g.anchor;
          anchored = g.anchored;
          is_start = sym (same _) ∙ g.is_start;
          earliest = sym (same _) ∙ g.earliest;
          expected = g.expected;
          observed = g.observed ∙ count_cong _ _ a.expected_windows (λ w l. same _);
        },
      )

  -- With runs and a positive number of hours, in decimals, the analysis succeeds, whatever the order
  -- of the runs: the grid starts at the earliest run, and the windows observed are those of the
  -- expected ones to which the index of a run belongs.
  pub compute-IsIndexed :
      (s : ℕ) (starts : List ℕ)
      → (a : Adherence) × (compute_schedule_adherence
            (some interval)
            (map at (s ∷ starts))
            (at end_ms)
          ≡ some a)
        × IsIndexed interval end_ms (s ∷ starts) a
  unfolding compute_schedule_adherence
  compute-IsIndexed s starts =
      rw (parse_all-at (s ∷ starts), normal_hours-positive n scale)
        (from_sorted-IsIndexed (sort leb (s ∷ starts)) (s ∷ starts) (sort-IsLed (s ∷ starts))
          (λ p. any-sort p (s ∷ starts)) refl)

count-le : (p : ℕ → Bool) (n : ℕ) → count p (below n) ≤ n
count-le p zero = omega arith
count-le p (suc n) = ground (arith, count-le p n)

-- No more windows are observed than have passed.
pub observed-le_expected :
    (hours : Decimal) (end_ms : ℕ) (starts : List ℕ) (a : Adherence)
    → IsIndexed hours end_ms starts a
    → a.observed_windows ≤ a.expected_windows
observed-le_expected hours end_ms starts a g = rw g.observed (count-le _ a.expected_windows)
