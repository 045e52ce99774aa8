-- ===== src/Intents/Machine.antt =====
-- Interleaved requests as runs of the handlers over the tables.
use steakout.Prelude.{ℕ, ◌≡◌, ap, ◌∙◌, Text, false, Option, some}
use steakout.Database.{Database, IntentRow}
use steakout.Reading.{PositionCache, is_pending}
use steakout.Intents.Request.{Value}
use steakout.Intents.Rows.{get_intent_by_id, expire_abandoned_pending_intents}
use steakout.Intents.Rows.Laws.{Evolves, Evolves-refl, Evolves-trans, expire_abandoned-Evolves}
use steakout.Intents.Create.{CreateEnv, create_staking_intent}
use steakout.Intents.Confirm.{ConfirmEnv, confirm_staking_intent}
use steakout.Intents.Owned.{get_owned_intent}
use steakout.Intents.Life.{create-Evolves, confirm-Evolves, owned-Evolves}

-- Any sequence of requests by any users, each with other requests served while it waits.
pub data Runs : Database → Database → Type 0 where
  idle : (db : Database) → Runs db db
  andthen : {a b c : Database} → Runs a b → Runs b c → Runs a c
  created :
      (env : CreateEnv) (db : Database) (cache : PositionCache) (user : Text) (op params : Value)
      → ((d : Database) → Runs d (env.meanwhile d))
      → Runs db (create_staking_intent env db cache user op params).1
  confirmed :
      (env : ConfirmEnv) (db : Database) (cache : PositionCache) (user : Text) (id hash : Value)
      → ((d : Database) → Runs d (env.fetching d))
      → ((d : Database) → Runs d (env.reading d))
      → Runs db (confirm_staking_intent env db cache user id hash).1
  shown :
      (db : Database) (network : Option Text) (user id : Text) (now_ms : ℕ)
      → Runs db (get_owned_intent db network user id now_ms).1
  cancelled : (db : Database) (user : Text) → Runs db (expire_abandoned_pending_intents db user).0

pub Runs-Evolves : {db db' : Database} → Runs db db' → Evolves db db'
Runs-Evolves (idle db) = Evolves-refl db
Runs-Evolves (andthen r s) = Evolves-trans (Runs-Evolves r) (Runs-Evolves s)
Runs-Evolves (created env db cache user op params others) =
    create-Evolves env (λ d. Runs-Evolves (others d)) db cache user op params
Runs-Evolves (confirmed env db cache user id hash fetching reading) =
    confirm-Evolves env (λ d. Runs-Evolves (fetching d)) (λ d. Runs-Evolves (reading d)) db cache
      user id hash
Runs-Evolves (shown db network user id now_ms) = owned-Evolves db network user id now_ms
Runs-Evolves (cancelled db user) = expire_abandoned-Evolves db user

-- An intent that has left `pending`.
pub record IsSettled (db : Database) (id : Text) : Type 0 where
  pub row : IntentRow
  pub found : get_intent_by_id db id ≡ some row
  pub settled : is_pending row.status ≡ false

pub IsSettled-Evolves :
    {db db' : Database} (id : Text) → Evolves db db' → IsSettled db id → IsSettled db' id
IsSettled-Evolves id e s =
    let (row', found', keeps) = e.at id s.row s.found in
    record { row = s.row; found = found' ∙ ap some (keeps.settled s.settled); settled = s.settled }

-- Whatever requests are served, an intent that was confirmed, failed or expired stays exactly as it
-- is, with its status, its transaction hash and its time of confirmation.
pub settled_forever :
    {db db' : Database} (id : Text) (row : IntentRow)
    → Runs db db'
    → get_intent_by_id db id ≡ some row
    → is_pending row.status ≡ false
    → get_intent_by_id db' id ≡ some row
unfolding IsSettled-Evolves
settled_forever id row runs found done =
    (IsSettled-Evolves id (Runs-Evolves runs)
      (record { row = row; found = found; settled = done })).found
