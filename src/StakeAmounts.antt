-- ===== src/StakeAmounts.antt =====
-- client/src/staking/amounts.ts, but for parsing: the amounts that the user may stake, retire and remove,
-- and their presets. An absent amount, and one that is not finite, is `none`; a floor below zero is an
-- integer. A quarter and a half of a whole amount are exact.
pub mod Headroom
use steakout.Prelude.{
  ℕ, zero, suc, ◌-◌, ◌/◌, ◌^◌, ◌≤◌, ◌≡◌, ◌*◌, refl, Bool, true, false, not, ◌&&◌, Option, none,
  some, leb, ltb, if◌then◌else◌, arith, Bool-cases, inl, inr,
}
use steakout.Prelude.Int.{pos, negsuc}
use steakout.Prelude.Js.{Num, nonfinite, real}

abbrev pub luna_per_nim : ℕ
luna_per_nim = 100000

abbrev pub stake_fee_headroom_luna : ℕ
stake_fee_headroom_luna = 1 * luna_per_nim

abbrev pub min_stake_luna : ℕ
min_stake_luna = 1

pub data AmountPreset : Type 0 where
  quarter half max_safe : AmountPreset

-- `Math.max(0, Math.floor(n))`, and 0 for what is no finite number.
unfoldable pub whole_luna : Option Num → ℕ
whole_luna (some (real (pos n) exact)) = n
whole_luna _ = 0

unfoldable pub max_safe_stake_luna : Option Num → ℕ
unfolding whole_luna
max_safe_stake_luna available =
    let whole = whole_luna available in
    if leb whole stake_fee_headroom_luna then 0 else whole - stake_fee_headroom_luna

unfoldable pub preset_of : ℕ → AmountPreset → ℕ
preset_of pool max_safe = pool
preset_of pool quarter = pool / 4
preset_of pool half = pool / 2

unfoldable pub preset_stake_luna : Option Num → AmountPreset → ℕ
unfolding max_safe_stake_luna preset_of
preset_stake_luna available preset =
    let whole = max_safe_stake_luna available in if leb whole 0 then 0 else preset_of whole preset

-- `maxRemoveLuna`
unfoldable pub max_remove_luna : Option Num → ℕ
unfolding whole_luna
max_remove_luna retired = whole_luna retired

unfoldable pub preset_pool_luna : Option Num → AmountPreset → ℕ
unfolding whole_luna preset_of
preset_pool_luna pool preset =
    let whole = whole_luna pool in if leb whole 0 then 0 else preset_of whole preset

-- `Number.isSafeInteger(valueLuna) && valueLuna >= MIN_STAKE_LUNA`
unfoldable pub stakeable : Num → Option ℕ
stakeable (real (pos n) true) = if leb n (2 ^ 53 - 1) && leb min_stake_luna n then some n else none
stakeable _ = none

abbrev pub is_within : Option ℕ → ℕ → Bool
is_within none pool = false
is_within (some n) pool = not (leb pool 0) && leb n pool

unfoldable pub is_stake_amount_allowed : Num → Option Num → Bool
unfolding stakeable max_safe_stake_luna
is_stake_amount_allowed value available =
    is_within (stakeable value) (max_safe_stake_luna available)

unfoldable pub is_pool_amount_allowed : Num → Option Num → Bool
unfolding stakeable whole_luna
is_pool_amount_allowed value pool = is_within (stakeable value) (whole_luna pool)
