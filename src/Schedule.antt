-- ===== src/Schedule.antt =====
-- The schedule that a validator declares, as server/src/payoutClassifier.ts reads it: from
-- canonicalizeScheduleText to normalizeScheduleHours.
pub mod Canonical
pub mod Laws
pub mod Usable
use steakout.Prelude.{
  ℕ, zero, suc, ◌+◌, ◌-◌, ◌*◌, ◌^◌, Text, text, is_digit, number_from, text_eq, trim, is_space,
  is_empty, split_on, Bool, true, false, not, ◌&&◌, ◌||◌, Option, none, some, List, [], ◌∷◌, ◌++◌,
  map, reverse, length, all, any, ltb, leb, ◌==◌, if◌then◌else◌,
}
use steakout.Prelude.Js.{Decimal}
use steakout.Rpc.{to_lower}

-- `[a-z0-9]`
abbrev pub is_word_unit : ℕ → Bool
is_word_unit c = is_digit c || (leb b'a' c && leb c b'z')

-- `[-_]`
abbrev pub is_separator : ℕ → Bool
is_separator c = (c == b'-') || (c == b'_')

-- `[.,;:!?]`
abbrev pub is_punctuation : ℕ → Bool
is_punctuation c =
    (c == b'.') || (c == b',') || (c == b';') || (c == b':') || (c == b'!') || (c == b'?')

-- What follows a run of separators begins with a letter or a digit.
unfoldable pub joins : Text → Bool
joins [] = false
joins (x ∷ xs) = if is_separator x then joins xs else is_word_unit x

-- `.replace(/(?<=[a-z0-9])[-_]+(?=[a-z0-9])/g, ' ')`. The flags say whether the separators that
-- follow belong to a run that was replaced, and whether the unit before is a letter or a digit.
unfoldable pub separate : Bool → Bool → Text → Text
unfolding joins
separate skip after_word [] = []
separate skip after_word (x ∷ xs) =
    let skipped = separate true false xs in
    let kept = separate false (is_word_unit x) xs in
    if is_separator x && skip
    then skipped
    else if is_separator x && after_word && joins xs
    then b' ' ∷ skipped
    else x ∷ kept

-- `.replace(/\s+/g, ' ')`. The flag says whether the unit before is a space.
unfoldable pub collapse : Bool → Text → Text
unfolding is_space
collapse after_space [] = []
collapse after_space (x ∷ xs) =
    let in_run = collapse true xs in
    let kept = collapse false xs in
    if is_space x then (if after_space then in_run else b' ' ∷ in_run) else x ∷ kept

unfoldable pub drop_punctuation : Text → Text
drop_punctuation [] = []
drop_punctuation (x ∷ xs) =
    let rest = drop_punctuation xs in if is_punctuation x then rest else x ∷ xs

-- `.replace(/^[.,;:!?]+|[.,;:!?]+$/g, '')`
unfoldable pub strip_punctuation : Text → Text
unfolding drop_punctuation
strip_punctuation t = reverse (drop_punctuation (reverse (drop_punctuation t)))

unfoldable pub canonicalize_schedule_text : Text → Text
unfolding separate collapse strip_punctuation
canonicalize_schedule_text raw =
    trim (strip_punctuation (collapse false (separate false false (map to_lower (trim raw)))))

-- `\d+`
abbrev pub is_number : Text → Bool
is_number t = not (is_empty t) && all is_digit t

-- `\d+(\.\d+)?`
unfoldable pub decimal_of_parts : List Text → Option Decimal
unfolding number_from
decimal_of_parts (whole ∷ []) =
    if is_number whole then some (record { digits = number_from 0 whole; scale = 0 }) else none
decimal_of_parts (whole ∷ part ∷ []) =
    if is_number whole && is_number part
    then some (record { digits = number_from 0 (whole ++ part); scale = length part })
    else none
decimal_of_parts _ = none

-- Where `Number` gives Infinity: from halfway between the largest double and 2 ** 1024.
abbrev pub too_large : Decimal → Bool
too_large d = leb ((2 ^ 1024 - 2 ^ 970) * 10 ^ d.scale) d.digits

-- Where `Number` gives 0: up to half of the least double.
abbrev pub too_small : Decimal → Bool
too_small d = leb (d.digits * 2 ^ 1075) (10 ^ d.scale)

-- `Number.isFinite(hours) && hours > 0`
abbrev pub positive_hours : Option Decimal → Option Decimal
positive_hours none = none
positive_hours (some d) = if too_large d || too_small d then none else some d

abbrev pub whole_hours : ℕ → Decimal
whole_hours n = record { digits = n; scale = 0 }

abbrev pub is_star : Text → Bool
is_star t = text_eq t (text "*")

-- The hour field of a cron line: `*`, `0`, or `*/` and digits.
unfoldable pub cron_step : Text → Option Decimal
unfolding number_from
cron_step (a ∷ b ∷ n) =
    if (a == b'*') && (b == b'/') && is_number n
    then positive_hours (some (whole_hours (number_from 0 n)))
    else none
cron_step _ = none

unfoldable pub cron_hour : Text → Option Decimal
unfolding cron_step
cron_hour hour =
    if is_star hour
    then some (whole_hours 1)
    else if text_eq hour (text "0")
    then some (whole_hours 24)
    else cron_step hour

unfoldable pub cron_of_parts : List Text → Option Decimal
unfolding cron_hour
cron_of_parts (minute ∷ hour ∷ day_of_month ∷ month ∷ day_of_week ∷ []) =
    if not (is_star day_of_month && is_star month && is_star day_of_week)
    then none
    else if not (text_eq minute (text "0"))
    then none
    else cron_hour hour
cron_of_parts _ = none

unfoldable pub parse_cron_every_hours : Text → Option Decimal
unfolding cron_of_parts
parse_cron_every_hours canonical = cron_of_parts (split_on b' ' canonical)

-- `hours?|hrs?|h`
abbrev pub is_hour_unit : Text → Bool
is_hour_unit t =
    text_eq t (text "hour")
    || text_eq t (text "hours")
    || text_eq t (text "hr")
    || text_eq t (text "hrs")
    || text_eq t (text "h")

-- `/^every (\d+(?:\.\d+)?) (?:hours?|hrs?|h)$/`, on the words between spaces.
unfoldable pub every_of_parts : List Text → Option Decimal
unfolding decimal_of_parts
every_of_parts (every ∷ number ∷ unit ∷ []) =
    if text_eq every (text "every") && is_hour_unit unit
    then decimal_of_parts (split_on b'.' number)
    else none
every_of_parts _ = none

unfoldable pub parse_every_hours : Text → Option Decimal
unfolding every_of_parts parse_cron_every_hours
parse_every_hours canonical =
    let every = every_of_parts (split_on b' ' canonical) in
    if text_eq canonical (text "hourly")
    then some (whole_hours 1)
    else if text_eq canonical (text "daily")
    then some (whole_hours 24)
    else if text_eq canonical (text "twice daily")
    then some (whole_hours 12)
    else elim every [ some d ↦ positive_hours (some d) | none ↦ parse_cron_every_hours canonical ]

pub record NormalizedSchedule : Type 0 where
  pub normalizable : Bool
  pub every_hours : Option Decimal
  pub raw : Option Text

unfoldable pub normalized : Text → Option Decimal → NormalizedSchedule
normalized raw none = record { normalizable = false; every_hours = none; raw = some raw }
normalized raw (some hours) = record {
  normalizable = true;
  every_hours = some hours;
  raw = some raw;
}

unfoldable pub normalize_schedule : Option Text → NormalizedSchedule
unfolding parse_every_hours canonicalize_schedule_text normalized
normalize_schedule none = record { normalizable = false; every_hours = none; raw = none }
normalize_schedule (some raw) = normalized raw (parse_every_hours (canonicalize_schedule_text raw))

unfoldable pub normalize_schedule_hours : Option Text → Option Decimal
unfolding normalize_schedule
normalize_schedule_hours raw = (normalize_schedule raw).every_hours
