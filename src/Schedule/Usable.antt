-- ===== src/Schedule/Usable.antt =====
-- What server/src/observationScoring.ts can do with the hours of a declared schedule.
use steakout.Prelude.{
  ℕ, suc, ◌*◌, ◌^◌, ◌≡◌, refl, sym, ap, ◌∙◌, Text, text, number_from, text_eq, split_on, Bool, true,
  false, not, ◌&&◌, ◌||◌, Option, none, some, List, [], ◌∷◌, leb, ◌==◌, if◌then◌else◌, arith,
  Bool-cases, inl, inr,
}
use steakout.Prelude.Js.{Decimal}
use steakout.Adherence.{normal_hours}
use steakout.Schedule.{
  canonicalize_schedule_text, positive_hours, too_large, too_small, whole_hours, cron_step,
  cron_hour, cron_of_parts, is_star, is_number, parse_cron_every_hours, every_of_parts,
  parse_every_hours, normalized, normalize_schedule, normalize_schedule_hours,
}

-- No hours, or a positive number of them.
IsUsable : Option Decimal → Type 0
IsUsable o = normal_hours o ≡ o

nothing-IsUsable : IsUsable none
unfolding IsUsable normal_hours
nothing-IsUsable = refl

whole-IsUsable : (n : ℕ) → IsUsable (some (whole_hours (suc n)))
unfolding IsUsable normal_hours
whole-IsUsable n = let positive : (suc n == 0) ≡ false = ground arith in rw positive refl

none_small : (n k m : ℕ) → (n == 0) ≡ true → leb (n * k) m ≡ true
none_small n k m h = ground arith

or_true : (a b : Bool) → b ≡ true → (a || b) ≡ true
or_true a b h = ground arith

choose : (b : Bool) (x y : Option Decimal) → IsUsable x → IsUsable y → IsUsable (if b then x else y)
choose true x y p q = p
choose false x y p q = q

positive-IsUsable : (o : Option Decimal) → IsUsable (positive_hours o)
unfolding IsUsable normal_hours
positive-IsUsable none = refl
positive-IsUsable (some d) = elim (Bool-cases (d.digits == 0)) [
  | inl e ↦
      rw (or_true (too_large d) (too_small d) (none_small d.digits (2 ^ 1075) (10 ^ d.scale) e))
        refl
  | inr e ↦ choose (too_large d || too_small d) none (some d) nothing-IsUsable (rw e refl)
]

cron_step-IsUsable : (hour : Text) → IsUsable (cron_step hour)
unfolding cron_step
cron_step-IsUsable (a ∷ b ∷ n) =
    choose ((a == b'*') && (b == b'/') && is_number n)
      (positive_hours (some (whole_hours (number_from 0 n)))) none
      (positive-IsUsable (some (whole_hours (number_from 0 n)))) nothing-IsUsable
cron_step-IsUsable [] = nothing-IsUsable
cron_step-IsUsable (a ∷ []) = nothing-IsUsable

cron_hour-IsUsable : (hour : Text) → IsUsable (cron_hour hour)
unfolding cron_hour
cron_hour-IsUsable hour =
    choose (is_star hour) (some (whole_hours 1))
      (if text_eq hour (text "0") then some (whole_hours 24) else cron_step hour) (whole-IsUsable 0)
      (choose (text_eq hour (text "0")) (some (whole_hours 24)) (cron_step hour) (whole-IsUsable 23)
        (cron_step-IsUsable hour))

cron_of_parts-IsUsable : (parts : List Text) → IsUsable (cron_of_parts parts)
unfolding cron_of_parts
cron_of_parts-IsUsable (minute ∷ hour ∷ day_of_month ∷ month ∷ day_of_week ∷ []) =
    choose (not (is_star day_of_month && is_star month && is_star day_of_week)) none
      (if not (text_eq minute (text "0")) then none else cron_hour hour) nothing-IsUsable
      (choose (not (text_eq minute (text "0"))) none (cron_hour hour) nothing-IsUsable
        (cron_hour-IsUsable hour))
cron_of_parts-IsUsable _ = nothing-IsUsable

matched-IsUsable :
    (o : Option Decimal) (canonical : Text)
    → IsUsable
        (elim o [ some d ↦ positive_hours (some d) | none ↦ parse_cron_every_hours canonical ])
unfolding parse_cron_every_hours
matched-IsUsable (some d) canonical = positive-IsUsable (some d)
matched-IsUsable none canonical = cron_of_parts-IsUsable (split_on b' ' canonical)

-- The words that stand for a number of hours, before anything else is tried.
named-IsUsable :
    (canonical : Text) (o : Option Decimal)
    → IsUsable o
    → IsUsable (
        if text_eq canonical (text "hourly")
        then some (whole_hours 1)
        else if text_eq canonical (text "daily")
        then some (whole_hours 24)
        else if text_eq canonical (text "twice daily")
        then some (whole_hours 12)
        else o)
named-IsUsable canonical o h =
    let twice = if text_eq canonical (text "twice daily") then some (whole_hours 12) else o in
    let daily = if text_eq canonical (text "daily") then some (whole_hours 24) else twice in
    choose (text_eq canonical (text "hourly")) (some (whole_hours 1)) daily (whole-IsUsable 0) (
      choose (text_eq canonical (text "daily")) (some (whole_hours 24)) twice (whole-IsUsable 23) (
        choose (text_eq canonical (text "twice daily")) (some (whole_hours 12)) o
          (whole-IsUsable 11) h))

parse-IsUsable : (canonical : Text) → IsUsable (parse_every_hours canonical)
unfolding parse_every_hours
parse-IsUsable canonical =
    named-IsUsable canonical _
      (matched-IsUsable (every_of_parts (split_on b' ' canonical)) canonical)

normalized-hours : (raw : Text) (o : Option Decimal) → (normalized raw o).every_hours ≡ o
unfolding normalized
normalized-hours raw none = refl
normalized-hours raw (some d) = refl

-- Whatever a validator declares, the hours that are read from it are taken over by the analysis of
-- its schedule as they are: they are positive, or there are none.
pub normal_hours-normalize :
    (raw : Option Text) → normal_hours (normalize_schedule_hours raw) ≡ normalize_schedule_hours raw
unfolding IsUsable normalize_schedule_hours normalize_schedule normal_hours
normal_hours-normalize none = refl
normal_hours-normalize (some raw) =
    let hours = parse_every_hours (canonicalize_schedule_text raw) in
    ap normal_hours (normalized-hours raw hours)
    ∙ parse-IsUsable (canonicalize_schedule_text raw)
    ∙ sym (normalized-hours raw hours)
