-- ===== src/Examples/Payouts.antt =====
-- Payout runs two hours apart, a daily schedule, and a limit of two requests.
use steakout.Prelude.{
  ℕ, ◌*◌, ◌≡◌, ◌≢◌, ◌≤◌, refl, Text, text, true, none, some, List, [], ◌∷◌, arith, all, filter,
  is_some,
}
use steakout.Prelude.Js.{Decimal, at, malformed}
use steakout.Payouts.{PayoutTransaction, PayoutRun, succeeded, failed, group_payout_runs, executed}
use steakout.Payouts.Runs.{
  IsGrouping, is_dated, group_payout_runs-IsGrouping, group_payout_runs-succeeds,
}
use steakout.Adherence.{Adherence, compute_schedule_adherence, window_index, hour_ms, irregular}
use steakout.Adherence.Grid.{IsOnGrid, compute-IsOnGrid}
use steakout.Adherence.Status.{Means, compute-Means}
use steakout.RateLimit.{Buckets, rate_limited, rate_limit, get_bucket}
use steakout.RateLimit.Laws.{admitted, admitted-le_limit}

abbrev early : PayoutTransaction
early = record {
  hash = text "a";
  to_address = text "x";
  value_luna = 3;
  block_number = 1;
  timestamp = at 0;
  execution_result = succeeded;
}

abbrev late : PayoutTransaction
late = record early { hash = text "b"; value_luna = 4; timestamp = at 7200000 }

abbrev broken : PayoutTransaction
broken = record early { execution_result = failed; timestamp = malformed 0 }

abbrev payouts : List PayoutTransaction
payouts = late ∷ broken ∷ early ∷ []

abbrev run : PayoutTransaction → ℕ → PayoutRun
run tx ms = record {
  started_at = at ms;
  ended_at = at ms;
  tx_count = 1;
  recipient_count = 1;
  recipients = text "x" ∷ [];
  first_block = 1;
  last_block = 1;
  first_tx_hash = tx.hash;
  last_tx_hash = tx.hash;
  tx_hashes = tx.hash ∷ [];
  total_value_luna = tx.value_luna;
}

two_runs : group_payout_runs payouts 60 ≡ some (run early 0 ∷ run late 7200000 ∷ [])
unfolding group_payout_runs steakout.Payouts.entry_leb steakout.Payouts.window_ms_of
two_runs = refl

group_payout_runs-IsGrouping_example : IsGrouping payouts 60 (run early 0 ∷ run late 7200000 ∷ [])
group_payout_runs-IsGrouping_example =
    group_payout_runs-IsGrouping payouts 60 (run early 0 ∷ run late 7200000 ∷ []) two_runs

group_payout_runs-succeeds_example :
    is_some (group_payout_runs payouts 60) ≡ all is_dated (filter executed payouts)
group_payout_runs-succeeds_example = group_payout_runs-succeeds payouts 60

-- Fifteen days of a daily schedule, with runs on the first and on the third.
abbrev daily : Decimal
daily = record { digits = 24; scale = 0 }

abbrev end_ms : ℕ
end_ms = 360 * hour_ms

abbrev starts : List ℕ
starts = 49 * hour_ms ∷ 0 ∷ []

compute-IsOnGrid_example :
    (a : Adherence) × (compute_schedule_adherence
        (some daily)
        (at (49 * hour_ms) ∷ at 0 ∷ [])
        (at end_ms)
      ≡ some a)
    × IsOnGrid (24 * hour_ms) end_ms starts a
compute-IsOnGrid_example =
    compute-IsOnGrid 23 end_ms (49 * hour_ms) (0 ∷ []) (omega arith) (omega arith)
      (omega arith, (omega arith, tt))

abbrev two_of_fifteen : Adherence
two_of_fifteen = record {
  status = irregular;
  anchor_at = some 0;
  expected_windows = 15;
  observed_windows = 2;
  depth_ms = end_ms;
  every_hours = some daily;
  run_count = 2;
}

computed :
    compute_schedule_adherence (some daily) (at (49 * hour_ms) ∷ at 0 ∷ []) (at end_ms)
    ≡ some two_of_fifteen
unfolding compute_schedule_adherence steakout.Payouts.Order.sort window_index steakout.Double.over
    steakout.Double.floor steakout.Double.number_of steakout.Double.round
    steakout.Double.round_within
computed = refl

-- Three times 0.4 hours are 1.2 hours, of which the quotient is less than three.
unevenly : window_index (record { digits = 4; scale = 1 }) 4320000 ≡ 2
unfolding window_index steakout.Double.over steakout.Double.floor steakout.Double.number_of
    steakout.Double.round steakout.Double.round_within
unevenly = refl

compute-Means_example : Means two_of_fifteen
compute-Means_example =
    compute-Means (some daily) (at (49 * hour_ms) ∷ at 0 ∷ []) (at end_ms) two_of_fifteen computed

abbrev full : Buckets
full = (text "k", record { count = 2; reset_at = 1500 }) ∷ []

no_bucket : get_bucket (text "k") [] ≡ none
unfolding get_bucket
no_bucket = refl

refused : (rate_limit 2 1000 full (text "k") 0).0 ≡ rate_limited 2
unfolding rate_limit get_bucket steakout.Prelude.text_eq
refused = refl

keys_differ : text "j" ≢ text "k"
keys_differ = λ h. absurd (ground (arith, h))

admitted-le_limit_example : admitted 2 1000 [] (text "k") (0 ∷ 1 ∷ 2 ∷ []) ≤ 2
admitted-le_limit_example =
    admitted-le_limit 2 1000 0 [] (text "k") (1 ∷ 2 ∷ []) no_bucket (omega arith)
      (omega arith, (omega arith, tt))
