-- ===== src/Adherence.antt =====
-- server/src/observationScoring.ts: how well payout runs keep to a declared interval. Times are
-- milliseconds; a depth in days is kept as the milliseconds of the span, and a rate as its two
-- counts. The interval is a decimal number of hours, as the schedule parser gives it; windows are
-- counted with quotients of doubles.
pub mod Laws
pub mod Windows
pub mod Grid
pub mod Status
use steakout.Prelude.{
  ℕ, zero, suc, ◌+◌, ◌-◌, ◌*◌, ◌/◌, ◌^◌, Bool, true, false, ◌&&◌, ◌||◌, Option, none, some, List,
  [], ◌∷◌, ◌++◌, ltb, leb, ◌==◌, if◌then◌else◌, any, length, is_some,
}
use steakout.Prelude.Js.{Iso, parse_date, Decimal}
use steakout.Double.{Double, round, over, floor, number_of}
use steakout.Payouts.Order.{sort}

pub data ObservationStatus : Type 0 where
  on_schedule mostly_on_schedule irregular insufficient_data unavailable : ObservationStatus

-- `MIN_HISTORY_DAYS` and `MIN_HISTORY_DAYS_FOR_GRADE`.
abbrev pub min_history_days : ℕ
min_history_days = 7

abbrev pub min_history_days_for_grade : ℕ
min_history_days_for_grade = 14

abbrev pub hour_ms : ℕ
hour_ms = 3600000

abbrev pub day_ms : ℕ
day_ms = 24 * hour_ms

-- `observed / expected >= 0.95`, and `>= 0.8`.
unfoldable pub grade : ℕ → ℕ → ObservationStatus
grade expected observed =
    if leb (19 * expected) (20 * observed)
    then on_schedule
    else if leb (4 * expected) (5 * observed)
    then mostly_on_schedule
    else irregular

unfoldable pub map_adherence_status : Bool → ℕ → ℕ → ℕ → ℕ → ObservationStatus
unfolding grade
map_adherence_status false run_count depth_ms expected observed =
    if run_count == 0 then unavailable else insufficient_data
map_adherence_status true run_count depth_ms expected observed =
    if ltb depth_ms (min_history_days * day_ms)
    then insufficient_data
    else if leb expected 0
    then insufficient_data
    else if ltb depth_ms (min_history_days_for_grade * day_ms)
    then insufficient_data
    else grade expected observed

-- The hours of a normalizable schedule.
unfoldable pub normal_hours : Option Decimal → Option Decimal
normal_hours none = none
normal_hours (some hours) = if hours.digits == 0 then none else some hours

-- `observedIndexes.add(index)`
unfoldable pub add_index : ℕ → List ℕ → List ℕ
add_index i indexes = if any (λ j. j == i) indexes then indexes else indexes ++ i ∷ []

-- `hoursBetween` of times that parse and are this far apart.
unfoldable pub hours_between : ℕ → Double
hours_between ms = round ms hour_ms

-- `Math.floor(hoursBetween(anchorAt, start) / everyHours)`, and the same of the end.
unfoldable pub window_index : Decimal → ℕ → ℕ
unfolding hours_between
window_index hours ms = floor (over (hours_between ms) (number_of hours))

-- The loop over the starts.
unfoldable pub observed_indexes : Decimal → ℕ → ℕ → List ℕ → List ℕ → List ℕ
unfolding add_index
observed_indexes hours anchor expected indexes [] = indexes
observed_indexes hours anchor expected indexes (start ∷ starts) =
    let index = window_index hours (start - anchor) in
    observed_indexes hours anchor expected
      (if ltb index expected then add_index index indexes else indexes) starts

unfoldable pub parse_all : List Iso → Option (List ℕ)
parse_all [] = some []
parse_all (t ∷ ts) = elim (parse_date t) [
  | none ↦ none
  | some ms ↦ elim (parse_all ts) [ none ↦ none | some rest ↦ some (ms ∷ rest) ]
]

pub record Adherence : Type 0 where
  pub status : ObservationStatus
  pub anchor_at : Option ℕ
  pub expected_windows : ℕ
  pub observed_windows : ℕ
  pub depth_ms : ℕ
  pub every_hours : Option Decimal
  pub run_count : ℕ

-- The expected and the observed windows.
unfoldable pub windows : Option Decimal → ℕ → ℕ → List ℕ → ℕ × ℕ
unfolding observed_indexes
windows none anchor span starts = (0, 0)
windows (some hours) anchor span starts =
    let expected = window_index hours span in
    (expected, length (observed_indexes hours anchor expected [] starts))

unfoldable pub graded : Option Decimal → ℕ → ℕ → ℕ → ℕ × ℕ → Adherence
unfolding map_adherence_status
graded hours anchor span run_count (expected, observed) = record {
  status = map_adherence_status (is_some hours) run_count span expected observed;
  anchor_at = some anchor;
  expected_windows = expected;
  observed_windows = observed;
  depth_ms = span;
  every_hours = hours;
  run_count = run_count;
}

unfoldable pub from_ordered : Option Decimal → List ℕ → Iso → Option Adherence
unfolding graded windows
from_ordered hours [] analysis_end = some (record {
  status = map_adherence_status (is_some hours) 0 0 0 0;
  anchor_at = none;
  expected_windows = 0;
  observed_windows = 0;
  depth_ms = 0;
  every_hours = hours;
  run_count = 0;
})
from_ordered hours (anchor ∷ rest) analysis_end = elim (parse_date analysis_end) [
  | none ↦ none
  | some end_ms ↦
      let span = end_ms - anchor in
      some (
        graded hours anchor span (length (anchor ∷ rest))
          (windows hours anchor span (anchor ∷ rest)))
]

-- `none` is the error on a malformed timestamp.
unfoldable pub compute_schedule_adherence : Option Decimal → List Iso → Iso → Option Adherence
unfolding normal_hours parse_all from_ordered
compute_schedule_adherence every_hours run_starts analysis_end = elim (parse_all run_starts) [
  | none ↦ none
  | some starts ↦ from_ordered (normal_hours every_hours) (sort leb starts) analysis_end
]
