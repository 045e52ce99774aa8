-- ===== src/Examples/Persist.antt =====
-- Two versions of an observation, of which one is stored anew; and a run that paid one of two stakers.
use steakout.Prelude.{
  ℕ, ◌≡◌, ◌↔◌, not, ◌&&◌, false, any, ◌≤◌, refl, Text, text, true, none, some, List, [], ◌∷◌,
  filter, map,
}
use steakout.Prelude.Js.{at}
use steakout.Addresses.{normalize_address}
use steakout.Payouts.{PayoutRun}
use steakout.Payouts.Persist.{
  ObservationRow, Observations, PersistOptions, in_scope, payout_run_type, payout_run_status,
  persist_payout_runs,
}
use steakout.Payouts.Persist.Laws.{out_of_scope, ids_apart, persist-others_untouched}
use steakout.Coverage.{Covered, compute_recipient_coverage}
use steakout.Coverage.Extremes.{is_recipient, is_blank, coverage_extremes}

abbrev options : PersistOptions
options = record { validator_address = text "v"; calc_version = 2; window_minutes = 60 }

abbrev old_row : ObservationRow
old_row = record {
  id = 1;
  validator_address = text "v";
  observation_type = payout_run_type;
  status = payout_run_status;
  observed_at = at 0;
  source_tx_hash = some (text "a");
  block_number = some 1;
  calc_version = 1;
  payload_json = none;
}

abbrev new_row : ObservationRow
new_row = record old_row { id = 2; calc_version = 2 }

abbrev table : Observations
table = record { rows = old_row ∷ new_row ∷ []; next_id = 3 }

abbrev run : PayoutRun
run = record {
  started_at = at 0;
  ended_at = at 5;
  tx_count = 1;
  recipient_count = 1;
  recipients = text "x" ∷ [];
  first_block = 1;
  last_block = 1;
  first_tx_hash = text "a";
  last_tx_hash = text "a";
  tx_hashes = text "a" ∷ [];
  total_value_luna = 3;
}

apart : ids_apart options (filter (in_scope options) table.rows) table.rows ≡ true
unfolding in_scope steakout.Prelude.text_eq
apart = refl

persist-others_untouched_example :
    filter (out_of_scope options) (persist_payout_runs options (run ∷ []) table).0.rows
    ≡ filter (out_of_scope options) table.rows
persist-others_untouched_example = persist-others_untouched options (run ∷ []) table apart

abbrev known : List Text
known = text "nq 1" ∷ text "NQ2" ∷ []

abbrev one_of_two : Covered
one_of_two = record { known_stakers_covered = 1; known_stakers_total = 2 }

one_covered : compute_recipient_coverage (text "NQ1" ∷ []) (some known) ≡ some one_of_two
unfolding compute_recipient_coverage normalize_address steakout.Prelude.is_space
    steakout.Prelude.text_eq steakout.Addresses.to_upper
one_covered = refl

coverage_extremes_example :
    ((one_of_two.known_stakers_covered ≡ one_of_two.known_stakers_total)
      ↔ (any (λ k. not (is_blank k) && not (is_recipient (text "NQ1" ∷ []) k)) known ≡ false))
    × ((one_of_two.known_stakers_covered ≡ 0)
        ↔ (any (λ k. not (is_blank k) && is_recipient (text "NQ1" ∷ []) k) known ≡ false))
coverage_extremes_example = coverage_extremes (text "NQ1" ∷ []) known one_of_two one_covered

abbrev both : Covered
both = record { known_stakers_covered = 2; known_stakers_total = 2 }

both_covered : compute_recipient_coverage known (some known) ≡ some both
unfolding compute_recipient_coverage normalize_address steakout.Prelude.is_space
    steakout.Prelude.text_eq steakout.Addresses.to_upper
both_covered = refl
