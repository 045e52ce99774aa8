-- ===== src/Schedule/Laws.antt =====
-- Declared schedules (server/src/payoutClassifier.ts) that are written out and read again.
use mathlib.Core.List.{reverse-append, append_assoc}
use steakout.Prelude.{
  ℕ, zero, suc, ◌*◌, ◌^◌, ◌-◌, ◌≤◌, ◌<◌, is_space, ◌≡◌, refl, ap, ◌∙◌, Text, text, text_eq, digits,
  is_digit, number-digits, digits-all_digits, digits-filled, split_on, has_unit, split_on-none,
  split_on-first, is_empty, Bool, true, false, ◌&&◌, Option, none, some, [], ◌∷◌, ◌++◌, reverse,
  all, all-append, leb, ◌==◌, arith,
}
use steakout.Prelude.Js.{Decimal}
use steakout.Schedule.{
  canonicalize_schedule_text, decimal_of_parts, positive_hours, whole_hours, is_number, cron_step,
  cron_hour, cron_of_parts, parse_cron_every_hours, every_of_parts, parse_every_hours, normalized,
  normalize_schedule_hours,
}
use steakout.Schedule.Canonical.{
  is_quiet, is_spaced, starts_well, is_canonical, canonicalize-fixed, digits-quiet, digits-spaced,
}

-- "every n hours"
abbrev pub every_text : ℕ → Text
every_text n = text "every " ++ (digits n ++ text " hours")

-- "0 */n * * *"
abbrev pub cron_text : ℕ → Text
cron_text n = text "0 */" ++ (digits n ++ text " * * *")

other_unit : (c x : ℕ) → is_digit c ≡ false → is_digit x ≡ true → (x == c) ≡ false
other_unit c x h k = ground arith

no_unit : (c : ℕ) (d : Text) → is_digit c ≡ false → all is_digit d ≡ true → has_unit c d ≡ false
no_unit c [] h k = refl
no_unit c (x ∷ xs) h k = rw (other_unit c x h (ground arith), no_unit c xs h (ground arith)) refl

all_of : (a b c d : Bool) → a ≡ true → b ≡ true → c ≡ true → d ≡ true → (a && b && c && d) ≡ true
all_of a b c d p q r s = ground arith

two_of : (a b : Bool) → a ≡ true → b ≡ true → (a && b) ≡ true
two_of a b p q = ground arith

-- Digits between two texts that are in canonical form apart from their ends.
between-canonical :
    (w : Bool) (before d after : Text)
    → all is_digit d ≡ true
    → is_empty d ≡ false
    → all is_quiet before ≡ true
    → all is_quiet after ≡ true
    → is_spaced false (before ++ (d ++ after)) ≡ is_spaced w (d ++ after)
    → is_spaced false after ≡ true
    → starts_well (before ++ (d ++ after)) ≡ true
    → ((t : Text) → starts_well (reverse after ++ t) ≡ true)
    → is_canonical (before ++ (d ++ after)) ≡ true
between-canonical w before d after digital filled b a sb sa first last =
    all_of _ _ _ _
      (all-append is_quiet before (d ++ after)
        ∙ two_of _ _ b (all-append is_quiet d after ∙ two_of _ _ (digits-quiet d digital) a))
      (sb ∙ digits-spaced w d after digital filled ∙ sa) first
      (ap starts_well (
          reverse-append before (d ++ after)
          ∙ ap (λ t. t ++ reverse before) (reverse-append d after))
        ∙ ap starts_well (append_assoc (reverse after) (reverse d) (reverse before))
        ∙ last (reverse d ++ reverse before))

within : (low high n : ℕ) → n ≤ low → low < high → leb high n ≡ false
within low high n h k = ground arith

times_two : (n k : ℕ) → 1 ≤ n → 2 ≤ k → 2 ≤ n * k
times_two zero k h l = absurd (omega (arith, h))
times_two (suc n) k h l = omega (arith, l, h)

not_small : (m : ℕ) → 2 ≤ m → leb m 1 ≡ false
not_small m h = ground arith

module _ (n : ℕ) (positive : 1 ≤ n) (safe : n ≤ 2 ^ 53 - 1) where
  every-canonical : canonicalize_schedule_text (every_text n) ≡ every_text n
  unfolding is_space
  every-canonical = canonicalize-fixed (every_text n) (
      between-canonical true (text "every ") (digits n) (text " hours") (digits-all_digits n)
        (digits-filled n) refl refl refl refl refl (λ t. refl))

  cron-canonical : canonicalize_schedule_text (cron_text n) ≡ cron_text n
  unfolding is_space
  cron-canonical = canonicalize-fixed (cron_text n) (
      between-canonical false (text "0 */") (digits n) (text " * * *") (digits-all_digits n)
        (digits-filled n) refl refl refl refl refl (λ t. refl))

  positive-hours : positive_hours (some (whole_hours n)) ≡ some (whole_hours n)
  positive-hours =
      rw
        (
          within (2 ^ 53 - 1) (2 ^ 1024 - 2 ^ 970) n safe (omega arith),
          not_small (n * 2 ^ 1075) (times_two n (2 ^ 1075) positive (omega arith)),
        )
        refl

  number : is_number (digits n) ≡ true
  number = rw (digits-filled n, digits-all_digits n) refl

  every-split : split_on b' ' (every_text n) ≡ text "every" ∷ digits n ∷ text "hours" ∷ []
  every-split =
      split_on-first b' ' (text "every") (digits n ++ text " hours") refl
      ∙ ap (λ parts. text "every" ∷ parts)
          (split_on-first b' ' (digits n) (text "hours")
              (no_unit b' ' (digits n) refl (digits-all_digits n))
            ∙ ap (λ parts. digits n ∷ parts) (split_on-none b' ' (text "hours") refl))

  every-decimal : decimal_of_parts (split_on b'.' (digits n)) ≡ some (whole_hours n)
  unfolding decimal_of_parts
  every-decimal =
      rw
        (
          split_on-none b'.' (digits n) (no_unit b'.' (digits n) refl (digits-all_digits n)),
          number,
          number-digits n,
        )
        refl

  every-matched : every_of_parts (split_on b' ' (every_text n)) ≡ some (whole_hours n)
  unfolding every_of_parts text_eq
  every-matched = ap every_of_parts every-split ∙ every-decimal

  every-parsed : parse_every_hours (every_text n) ≡ some (whole_hours n)
  unfolding parse_every_hours text_eq
  every-parsed =
      ap
        (λ o. elim o as (λ o. Option Decimal) [
          | some d ↦ positive_hours (some d)
          | none ↦ parse_cron_every_hours (every_text n)
        ])
        every-matched
      ∙ positive-hours

  cron-split :
      split_on b' ' (cron_text n)
      ≡ text "0" ∷ (text "*/" ++ digits n) ∷ text "*" ∷ text "*" ∷ text "*" ∷ []
  unfolding split_on
  cron-split =
      split_on-first b' ' (text "0") (text "*/" ++ (digits n ++ text " * * *")) refl
      ∙ ap (λ parts. text "0" ∷ parts)
          (split_on-first b' ' (text "*/" ++ digits n) (text "* * *")
              (no_unit b' ' (digits n) refl (digits-all_digits n))
            ∙ ap (λ parts. (text "*/" ++ digits n) ∷ parts) stars)
    where
      stars : split_on b' ' (text "* * *") ≡ text "*" ∷ text "*" ∷ text "*" ∷ []
      stars = refl

  cron-stepped : cron_hour (text "*/" ++ digits n) ≡ some (whole_hours n)
  unfolding cron_hour cron_step text_eq
  cron-stepped = rw (number, number-digits n) positive-hours

  cron-parsed : parse_every_hours (cron_text n) ≡ some (whole_hours n)
  unfolding parse_every_hours parse_cron_every_hours every_of_parts cron_of_parts text_eq
  cron-parsed =
      ap
        (λ parts. elim (every_of_parts parts) as (λ o. Option Decimal) [
          | some d ↦ positive_hours (some d)
          | none ↦ cron_of_parts parts
        ])
        cron-split
      ∙ cron-stepped

  read-every : normalize_schedule_hours (some (every_text n)) ≡ some (whole_hours n)
  unfolding normalize_schedule_hours normalized
  read-every =
      ap (λ c. (normalized (every_text n) (parse_every_hours c)).every_hours) every-canonical
      ∙ ap (λ o. (normalized (every_text n) o).every_hours) every-parsed

  read-cron : normalize_schedule_hours (some (cron_text n)) ≡ some (whole_hours n)
  unfolding normalize_schedule_hours normalized
  read-cron =
      ap (λ c. (normalized (cron_text n) (parse_every_hours c)).every_hours) cron-canonical
      ∙ ap (λ o. (normalized (cron_text n) o).every_hours) cron-parsed

  -- A whole number of hours, from one to the largest safe integer, is read from the words "every n
  -- hours" and from the cron line "0 */n * * *" alike.
  pub read-written :
      (normalize_schedule_hours (some (every_text n)) ≡ some (whole_hours n))
      × (normalize_schedule_hours (some (cron_text n)) ≡ some (whole_hours n))
  read-written = (read-every, read-cron)
