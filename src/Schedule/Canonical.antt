-- ===== src/Schedule/Canonical.antt =====
-- Texts that canonicalizeScheduleText (server/src/payoutClassifier.ts) leaves as they are.
use mathlib.Core.List.{reverse-reverse}
use steakout.Prelude.{
  ℕ, ◌≡◌, refl, sym, ap, Text, is_digit, trim, trim_start, is_space, is_empty, Bool, true, false,
  not, ◌&&◌, [], ◌∷◌, ◌++◌, map, reverse, all, leb, ◌==◌, if◌then◌else◌, arith, Bool-cases, inl,
  inr,
}
use steakout.Rpc.{to_lower}
use steakout.Schedule.{
  is_word_unit, is_separator, is_punctuation, separate, collapse, drop_punctuation,
  strip_punctuation, canonicalize_schedule_text,
}

-- No capital letter and no separator.
abbrev pub is_quiet : ℕ → Bool
is_quiet c = not (leb b'A' c && leb c b'Z') && not (is_separator c)

-- Single spaces of one kind; the flag says whether the unit before is a space.
abbrev pub is_spaced : Bool → Text → Bool
is_spaced after_space [] = true
is_spaced after_space (x ∷ xs) =
    if is_space x then (x == b' ') && not after_space && is_spaced true xs else is_spaced false xs

-- The first unit is no space and no punctuation.
abbrev pub starts_well : Text → Bool
starts_well [] = true
starts_well (x ∷ xs) = not (is_space x) && not (is_punctuation x)

abbrev pub is_canonical : Text → Bool
is_canonical t = all is_quiet t && is_spaced false t && starts_well t && starts_well (reverse t)

lower_quiet : (t : Text) → all is_quiet t ≡ true → map to_lower t ≡ t
unfolding to_lower
lower_quiet [] h = refl
lower_quiet (x ∷ xs) h =
    let same : to_lower x ≡ x = ground arith in rw (same, lower_quiet xs (ground arith)) refl

separate_quiet : (w : Bool) (t : Text) → all is_quiet t ≡ true → separate false w t ≡ t
unfolding separate
separate_quiet w [] h = refl
separate_quiet w (x ∷ xs) h =
    let plain : is_separator x ≡ false = ground arith in
    rw (plain, separate_quiet (is_word_unit x) xs (ground arith)) refl

spaced_parts :
    (space same b rest other : Bool)
    → (if space then same && not b && rest else other) ≡ true
    → space ≡ true
    → (same ≡ true) × (b ≡ false) × (rest ≡ true)
spaced_parts space same b rest other h e = (ground arith, ground arith, ground arith)

spaced_other :
    (space first other : Bool)
    → (if space then first else other) ≡ true
    → space ≡ false
    → other ≡ true
spaced_other space first other h e = ground arith

same_unit : (x y : ℕ) → (x == y) ≡ true → x ≡ y
same_unit x y h = ground arith

collapse_spaced : (b : Bool) (t : Text) → is_spaced b t ≡ true → collapse b t ≡ t
unfolding collapse
collapse_spaced b [] h = refl
collapse_spaced b (x ∷ xs) h = elim (Bool-cases (is_space x)) [
  | inl e ↦
      let (same, gap, rest) =
        spaced_parts (is_space x) (x == b' ') b (is_spaced true xs) (is_spaced false xs) h e in
      rw (e, gap, collapse_spaced true xs rest) (ap (λ c. c ∷ xs) (sym (same_unit x b' ' same)))
  | inr e ↦
      rw (e, collapse_spaced false xs (spaced_other (is_space x) _ (is_spaced false xs) h e)) refl
]

trim_start-well : (t : Text) → starts_well t ≡ true → trim_start t ≡ t
unfolding trim_start
trim_start-well [] h = refl
trim_start-well (x ∷ xs) h = let solid : is_space x ≡ false = ground arith in rw solid refl

drop_punctuation-well : (t : Text) → starts_well t ≡ true → drop_punctuation t ≡ t
unfolding drop_punctuation
drop_punctuation-well [] h = refl
drop_punctuation-well (x ∷ xs) h =
    let plain : is_punctuation x ≡ false = ground arith in rw plain refl

module _ (t : Text) (first : starts_well t ≡ true) (last : starts_well (reverse t) ≡ true) where
  trim-well : trim t ≡ t
  unfolding trim
  trim-well = rw (trim_start-well t first, trim_start-well (reverse t) last) (reverse-reverse t)

  strip-well : strip_punctuation t ≡ t
  unfolding strip_punctuation
  strip-well =
      rw (drop_punctuation-well t first, drop_punctuation-well (reverse t) last) (reverse-reverse t)

pub canonicalize-fixed : (t : Text) → is_canonical t ≡ true → canonicalize_schedule_text t ≡ t
unfolding canonicalize_schedule_text
canonicalize-fixed t h =
    let quiet : all is_quiet t ≡ true = ground arith in
    let spaced : is_spaced false t ≡ true = ground arith in
    let first : starts_well t ≡ true = ground arith in
    let last : starts_well (reverse t) ≡ true = ground arith in
    let trimmed = trim-well t first last in
    rw
      (
        trimmed,
        lower_quiet t quiet,
        separate_quiet false t quiet,
        collapse_spaced false t spaced,
        strip-well t first last,
      )
      trimmed

-- Digits change nothing.
pub digits-quiet : (d : Text) → all is_digit d ≡ true → all is_quiet d ≡ true
digits-quiet [] h = refl
digits-quiet (x ∷ xs) h = ground (arith, digits-quiet xs)

digit_solid : (x : ℕ) → is_digit x ≡ true → is_space x ≡ false
unfolding is_space
digit_solid x h = ground arith

pub digits-spaced :
    (b : Bool) (d t : Text)
    → all is_digit d ≡ true
    → is_empty d ≡ false
    → is_spaced b (d ++ t) ≡ is_spaced false t
digits-spaced b [] t h k = absurd (ground arith)
digits-spaced b (x ∷ []) t h k = rw (digit_solid x (ground arith)) refl
digits-spaced b (x ∷ y ∷ ys) t h k =
    rw (digit_solid x (ground arith)) (digits-spaced false (y ∷ ys) t (ground arith) refl)
