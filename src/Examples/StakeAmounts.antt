-- ===== src/Examples/StakeAmounts.antt =====
-- A balance of three NIM.
use steakout.Prelude.{◌+◌, ◌≤◌, ◌≡◌, true, some, arith}
use steakout.Prelude.Js.{int}
use steakout.StakeAmounts.{
  quarter, whole_luna, stake_fee_headroom_luna, preset_stake_luna, is_stake_amount_allowed,
}
use steakout.StakeAmounts.Headroom.{preset-allowed}

preset-allowed_example :
    (is_stake_amount_allowed
        (int (preset_stake_luna (some (int 300000)) quarter))
        (some (int 300000))
      ≡ true)
    × (preset_stake_luna (some (int 300000)) quarter + stake_fee_headroom_luna
        ≤ whole_luna (some (int 300000)))
unfolding preset_stake_luna
preset-allowed_example = preset-allowed (some (int 300000)) quarter (omega arith) (omega arith)
