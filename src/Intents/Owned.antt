-- ===== src/Intents/Owned.antt =====
-- `getOwnedIntent`: an intent shown to its owner.
use steakout.Prelude.{ℕ, Text, Bool, false, not, ◌&&◌, Option, none, some, ltb, if◌then◌else◌}
use steakout.Prelude.Js.{Iso, parse_date}
use steakout.Addresses.{normalize_address, addresses_equal}
use steakout.Api.{Result, ok, err}
use steakout.Staking.{Operation, IntentParams}
use steakout.Database.{Database, IntentRow, IntentStatus, pending, confirmed, expired}
use steakout.Position.{PositionState, active, not_staked}
use steakout.Position
use steakout.Reading.{is_pending}
use steakout.Intents.Rows.{get_intent_by_id, expire_intent}
use steakout.Intents.Confirm.{not_found, stored_params}
use steakout.Intents.Summary.{IntentSummary, build_summary, or_else}

pub record IntentStatusView : Type 0 where
  pub intent_id : Text
  pub status : IntentStatus
  pub expires_at : Iso
  pub operation : Operation
  pub params : IntentParams
  pub summary : IntentSummary
  pub tx_hash : Option Text
  pub confirmed_at : Option Iso

-- `Number.isFinite(expiresMs) && expiresMs < nowMs`
unfoldable pub is_past : Option ℕ → ℕ → Bool
is_past none now_ms = false
is_past (some t) now_ms = ltb t now_ms

abbrev pub shown_state : IntentStatus → PositionState
shown_state pending = Position.pending
shown_state confirmed = active
shown_state _ = not_staked

unfoldable pub view_of : Database → Option Text → IntentRow → IntentStatus → IntentStatusView
view_of db network row status =
    let p = stored_params row.params_json in
    record {
      intent_id = row.id;
      status = status;
      expires_at = row.expires_at;
      operation = row.operation;
      params = p;
      summary =
          build_summary db network row.operation p (shown_state status)
            (or_else p.delegation p.new_delegation);
      tx_hash = row.tx_hash;
      confirmed_at = row.confirmed_at;
    }

unfoldable pub show_owned :
    Database → Option Text → Text → ℕ → Option IntentRow → Result IntentStatusView × Database
unfolding is_past view_of
show_owned db network address now_ms none = (err not_found, db)
show_owned db network address now_ms (some row) =
    if not (addresses_equal (some row.user_address) (some address))
    then (err not_found, db)
    else if is_pending row.status && is_past (parse_date row.expires_at) now_ms
    then (ok (view_of (expire_intent db row.id) network row expired), expire_intent db row.id)
    else (ok (view_of db network row row.status), db)

unfoldable pub get_owned_intent :
    Database → Option Text → Text → Text → ℕ → Result IntentStatusView × Database
unfolding show_owned
get_owned_intent db network user_address id now_ms =
    show_owned db network (normalize_address user_address) now_ms (get_intent_by_id db id)
