-- ===== src/Adherence/Grid.antt =====
-- computeScheduleAdherence (server/src/observationScoring.ts): the grid of a whole number of hours, for
-- which the quotients of doubles give the exact windows.
use steakout.Prelude.{
  ℕ, suc, ◌-◌, ◌*◌, ◌/◌, ◌<◌, ◌≡◌, refl, ◌∙◌, true, false, some, List, [], ◌∷◌, ltb, ◌==◌, any,
  arith, count, All, map,
}
use steakout.Prelude.Js.{at}
use steakout.Double.{mantissas}
use steakout.Double.Quotients.{floor-exact}
use steakout.Schedule.{whole_hours}
use steakout.Adherence.{hour_ms, Adherence, window_index, compute_schedule_adherence}
use steakout.Adherence.Laws.{below, counts_in, holds, index_in, count_cong}
use steakout.Adherence.Windows.{IsIndexed, compute-IsIndexed}

-- Milliseconds that the roundings do not disturb: times before the year 73000.
abbrev pub exact_ms : ℕ
exact_ms = 2251799813685248

window_index-whole :
    (n t : ℕ)
    → suc n < mantissas
    → t < exact_ms
    → window_index (whole_hours (suc n)) t ≡ t / (hour_ms * suc n)
unfolding window_index steakout.Adherence.hours_between steakout.Double.number_of
window_index-whole n t small early =
    floor-exact t hour_ms (suc n) (omega arith) (omega arith) (omega arith) small early

index_held :
    (n anchor w : ℕ) (xs : List ℕ)
    → suc n < mantissas
    → All (λ x. x < exact_ms) xs
    → counts_in (whole_hours (suc n)) anchor xs w ≡ holds (hour_ms * suc n) anchor xs w
index_held n anchor w [] small early = refl
index_held n anchor w (x ∷ xs) small (e, early) =
    rw
      (
        window_index-whole n (x - anchor) small (omega (arith, e)),
        index_in (hour_ms * suc n) (x - anchor) w (omega arith),
        index_held n anchor w xs small early,
      )
      refl

-- What the windows of a schedule are, in windows of that many milliseconds. The anchor is the
-- earliest start; a window is observed when it holds a start.
pub record IsOnGrid (window end_ms : ℕ) (starts : List ℕ) (a : Adherence) : Type 0 where
  pub anchor : ℕ
  pub anchored : a.anchor_at ≡ some anchor
  pub is_start : any (λ s. s == anchor) starts ≡ true
  pub earliest : any (λ s. ltb s anchor) starts ≡ false
  pub expected : a.expected_windows ≡ (end_ms - anchor) / window
  pub observed : a.observed_windows ≡ count (holds window anchor starts) (below a.expected_windows)

indexed-IsOnGrid :
    (n end_ms : ℕ) (starts : List ℕ) (a : Adherence)
    → suc n < mantissas
    → end_ms < exact_ms
    → All (λ x. x < exact_ms) starts
    → IsIndexed (whole_hours (suc n)) end_ms starts a
    → IsOnGrid (hour_ms * suc n) end_ms starts a
indexed-IsOnGrid n end_ms starts a small ends early g = record {
  anchor = g.anchor;
  anchored = g.anchored;
  is_start = g.is_start;
  earliest = g.earliest;
  expected = g.expected ∙ window_index-whole n (end_ms - g.anchor) small (omega (arith, ends));
  observed =
      g.observed
      ∙ count_cong _ _ a.expected_windows (λ w l. index_held n g.anchor w starts small early);
}

-- With runs and a whole number of hours that is positive and less than `2 ** 53`, and times before
-- the year 73000, the analysis succeeds, whatever the order of the runs: the grid starts at the
-- earliest run, the windows expected are those that have passed entirely, and the windows observed
-- are those of them in which a run started. The quotients of doubles do not change these counts.
pub compute-IsOnGrid :
    (n end_ms s : ℕ) (starts : List ℕ)
    → suc n < mantissas
    → end_ms < exact_ms
    → All (λ x. x < exact_ms) (s ∷ starts)
    → (a : Adherence) × (compute_schedule_adherence
          (some (whole_hours (suc n)))
          (map at (s ∷ starts))
          (at end_ms)
        ≡ some a)
      × IsOnGrid (hour_ms * suc n) end_ms (s ∷ starts) a
compute-IsOnGrid n end_ms s starts small ends early =
    let (a, computed, g) = compute-IsIndexed n 0 end_ms s starts in
    (a, computed, indexed-IsOnGrid n end_ms (s ∷ starts) a small ends early g)
