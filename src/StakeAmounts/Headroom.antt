-- ===== src/StakeAmounts/Headroom.antt =====
-- The presets of client/src/staking/amounts.ts, and what they leave of a balance.
use steakout.Prelude.{
  ℕ, ◌+◌, ◌-◌, ◌^◌, ◌≤◌, ◌≡◌, refl, ap, ◌∙◌, true, Option, some, leb, if◌then◌else◌, arith,
  Bool-cases, inl, inr,
}
use steakout.Prelude.Js.{Num, int}
use steakout.StakeAmounts.{
  AmountPreset, quarter, half, max_safe, whole_luna, stake_fee_headroom_luna, max_safe_stake_luna,
  preset_of, preset_stake_luna, stakeable, is_stake_amount_allowed, is_within,
}

preset-le : (pool : ℕ) (preset : AmountPreset) → preset_of pool preset ≤ pool
unfolding preset_of
preset-le pool max_safe = omega arith
preset-le pool quarter = omega arith
preset-le pool half = omega arith

stake-le :
    (available : Option Num) (preset : AmountPreset)
    → preset_stake_luna available preset ≤ max_safe_stake_luna available
unfolding preset_stake_luna
stake-le available preset = elim (Bool-cases (leb (max_safe_stake_luna available) 0)) [
  | inl e ↦ rw e (omega arith)
  | inr e ↦ rw e (preset-le (max_safe_stake_luna available) preset)
]

headroom_left :
    (whole n : ℕ)
    → 1 ≤ n
    → n ≡ (if leb whole 100000 then 0 else whole - 100000)
    → n + 100000 ≤ whole
headroom_left whole n h e = ground arith

safe-headroom :
    (available : Option Num)
    → 1 ≤ max_safe_stake_luna available
    → max_safe_stake_luna available + stake_fee_headroom_luna ≤ whole_luna available
unfolding max_safe_stake_luna
safe-headroom available h =
    headroom_left (whole_luna available) (max_safe_stake_luna available) h refl

within : (n pool : ℕ) → 1 ≤ n → n ≤ pool → is_within (some n) pool ≡ true
within n pool h l = ground arith

stakeable-int : (n : ℕ) → 1 ≤ n → n ≤ 2 ^ 53 - 1 → stakeable (int n) ≡ some n
unfolding stakeable
stakeable-int n h k = ground arith

-- A preset that offers at least one Luna, up to the largest safe integer, is an amount that may be
-- staked, and leaves the fee headroom of the balance.
pub preset-allowed :
    (available : Option Num) (preset : AmountPreset)
    → 1 ≤ preset_stake_luna available preset
    → preset_stake_luna available preset ≤ 2 ^ 53 - 1
    → (is_stake_amount_allowed (int (preset_stake_luna available preset)) available ≡ true)
      × (preset_stake_luna available preset + stake_fee_headroom_luna ≤ whole_luna available)
unfolding is_stake_amount_allowed
preset-allowed available preset h k =
    let n = preset_stake_luna available preset in
    let most = stake-le available preset in
    (
      ap (λ o. is_within o (max_safe_stake_luna available)) (stakeable-int n h k)
          ∙ within n (max_safe_stake_luna available) h most,
      omega (arith, most, safe-headroom available (omega (arith, h, most))),
    )
