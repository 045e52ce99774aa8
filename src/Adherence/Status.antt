-- ===== src/Adherence/Status.antt =====
-- computeScheduleAdherence (server/src/observationScoring.ts): what its status says.
use mathlib.Core.Path.{subst}
use steakout.Prelude.{
  ℕ, ◌-◌, ◌*◌, ◌≤◌, ◌<◌, ◌≡◌, refl, true, false, Option, none, some, List, [], ◌∷◌, ltb, leb, ◌==◌,
  length, is_some, arith, ◌⊎◌, ◌≢◌, Bool-cases, inl, inr, if◌then◌else◌,
}
use steakout.Prelude.Js.{Iso, at, malformed, Decimal}
use steakout.Payouts.Order.{sort}
use steakout.Adherence.{
  day_ms, parse_all, Adherence, graded, from_ordered, normal_hours, compute_schedule_adherence,
  ObservationStatus, on_schedule, mostly_on_schedule, irregular, insufficient_data, unavailable,
  map_adherence_status, grade,
}

-- At least fourteen days lie behind a grade, and at least one full window.
abbrev pub IsDeep : Adherence → Type 0
IsDeep a = (is_some a.every_hours ≡ true) × (14 * day_ms ≤ a.depth_ms) × (1 ≤ a.expected_windows)

-- What each status says of the windows, the history and the runs.
abbrev pub Meaning : ObservationStatus → Adherence → Type 0
Meaning on_schedule a = IsDeep a × (95 * a.expected_windows ≤ 100 * a.observed_windows)
Meaning mostly_on_schedule a =
    IsDeep a
    × (80 * a.expected_windows ≤ 100 * a.observed_windows)
    × (100 * a.observed_windows < 95 * a.expected_windows)
Meaning irregular a = IsDeep a × (100 * a.observed_windows < 80 * a.expected_windows)
Meaning insufficient_data a =
    ((is_some a.every_hours ≡ false) × (a.run_count ≢ 0))
    ⊎ ((is_some a.every_hours ≡ true) × (a.depth_ms < 14 * day_ms ⊎ (a.expected_windows ≡ 0)))
Meaning unavailable a = (is_some a.every_hours ≡ false) × (a.run_count ≡ 0)

abbrev pub Means : Adherence → Type 0
Means a = Meaning a.status a

no_hours :
    (runs : ℕ) (a : Adherence)
    → a.every_hours ≡ none
    → a.run_count ≡ runs
    → Meaning (if runs == 0 then unavailable else insufficient_data) a
no_hours runs a h r = elim (Bool-cases (runs == 0)) [
  | inl e ↦ rw e (ground arith, ground arith)
  | inr e ↦ rw e (inl (ground arith, ground arith))
]

with_hours :
    (span e o : ℕ) (a : Adherence)
    → is_some a.every_hours ≡ true
    → a.depth_ms ≡ span
    → a.expected_windows ≡ e
    → a.observed_windows ≡ o
    → Meaning (map_adherence_status true a.run_count span e o) a
unfolding map_adherence_status grade
with_hours span e o a h d x y = elim (Bool-cases (ltb span (7 * day_ms))) [
  | inl short ↦ rw short (inr (h, inl (ground arith)))
  | inr week ↦ elim (Bool-cases (leb e 0)) [
    | inl empty ↦ rw (week, empty) (inr (h, inr (ground arith)))
    | inr some_window ↦ elim (Bool-cases (ltb span (14 * day_ms))) [
      | inl short ↦ rw (week, some_window, short) (inr (h, inl (ground arith)))
      | inr deep ↦ elim (Bool-cases (leb (19 * e) (20 * o))) [
        | inl high ↦
            rw (week, some_window, deep, high) ((h, ground arith, ground arith), ground arith)
        | inr low ↦ elim (Bool-cases (leb (4 * e) (5 * o))) [
          | inl fair ↦
              rw (week, some_window, deep, low, fair)
                ((h, ground arith, ground arith), ground arith, ground arith)
          | inr poor ↦
              rw (week, some_window, deep, low, poor)
                ((h, ground arith, ground arith), ground arith)
        ]
      ]
    ]
  ]
]

graded-Means :
    (hours : Option Decimal) (anchor span runs : ℕ) (counts : ℕ × ℕ)
    → Means (graded hours anchor span runs counts)
unfolding graded map_adherence_status
graded-Means none anchor span runs (e, o) = no_hours runs _ refl refl
graded-Means (some h) anchor span runs (e, o) = with_hours span e o _ refl refl refl refl

abbrev AllMeans : Option Adherence → Type 0
AllMeans none = Unit
AllMeans (some a) = Means a

from_ordered-Means :
    (hours : Option Decimal) (starts : List ℕ) (analysis_end : Iso)
    → AllMeans (from_ordered hours starts analysis_end)
unfolding from_ordered map_adherence_status
from_ordered-Means none [] analysis_end = (refl, refl)
from_ordered-Means (some h) [] analysis_end = inr (refl, inl (omega arith))
from_ordered-Means hours (anchor ∷ rest) (at end_ms) =
    graded-Means hours anchor (end_ms - anchor) (length (anchor ∷ rest)) _
from_ordered-Means hours (anchor ∷ rest) (malformed r) = tt

compute-AllMeans :
    (every_hours : Option Decimal) (parsed : Option (List ℕ)) (analysis_end : Iso)
    → AllMeans (elim parsed [
      | none ↦ none
      | some starts ↦ from_ordered (normal_hours every_hours) (sort leb starts) analysis_end
    ])
compute-AllMeans every_hours none analysis_end = tt
compute-AllMeans every_hours (some starts) analysis_end =
    from_ordered-Means (normal_hours every_hours) (sort leb starts) analysis_end

-- Whenever the analysis succeeds its status says the truth. `on_schedule`, `mostly_on_schedule` and
-- `irregular` stand on a usable interval, at least fourteen days of history and a full window, and
-- mean that at least 95%, from 80% to below 95%, and below 80% of the windows were observed;
-- `unavailable` means no usable interval and no runs; and `insufficient_data` covers the rest.
pub compute-Means :
    (every_hours : Option Decimal) (run_starts : List Iso) (analysis_end : Iso) (a : Adherence)
    → compute_schedule_adherence every_hours run_starts analysis_end ≡ some a
    → Means a
unfolding compute_schedule_adherence
compute-Means every_hours run_starts analysis_end a h =
    subst AllMeans h (compute-AllMeans every_hours (parse_all run_starts) analysis_end)
