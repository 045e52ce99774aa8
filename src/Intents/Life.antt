-- ===== src/Intents/Life.antt =====
-- Each handler of server/src/stakingIntents.ts and the rows of the intents before and after it.
use steakout.Prelude.{ℕ, ◌≡◌, refl, Text, ◌&&◌, Option, none, some, Bool-cases, inl, inr, ◌==◌, []}
use steakout.Prelude.Js.{parse_date, at}
use steakout.Addresses.{normalize_address, addresses_equal}
use steakout.Api.{Result, ok, err}
use steakout.Rpc.{Reply, returned, Transaction}
use steakout.Rpc
use steakout.Staking.{Operation, IntentParams}
use steakout.Database.{Database, IntentRow}
use steakout.Reading.{
  Envelope, PositionCache, PositionRpc, ReadOptions, read_staking_position, is_pending,
}
use steakout.Reading.Tables.{read_staking_position-intents}
use steakout.Intents.Request.{Value, normalize_provider_tx_ref}
use steakout.Intents.Rows.{
  get_intent_by_id, insert_intent, confirm_intent, expire_abandoned_pending_intents,
}
use steakout.Intents.Rows.Laws.{
  Evolves, Evolves-refl, Evolves-trans, Evolves-same, expire_abandoned-Evolves,
  expire_intent-Evolves, fail_intent-Evolves, confirm_intent-Evolves, insert_intent-Evolves,
}
use steakout.Intents.Create.{
  CreateEnv, create_staking_intent, after_parse, after_position, after_check, after_insert,
  create_read, new_intent, check_position, parse_request,
}
use steakout.Intents.Confirm.{
  ConfirmEnv, Verdict, execution_failed, mismatch, matched, Admission, refused, lapsed, admitted,
  confirm_staking_intent, show_position, settle, after_fetch, after_admission, after_request,
  confirm_read, confirmed_hash, judge, admit, intent_id_of,
}
use steakout.Intents.Owned.{get_owned_intent, show_owned, is_past}

pub read-Evolves :
    (rpc : PositionRpc) (db : Database) (cache : PositionCache) (o : ReadOptions)
    → Evolves db (read_staking_position rpc db cache o).1
read-Evolves rpc db cache o = Evolves-same db _ (read_staking_position-intents rpc db cache o)

module _ (env : CreateEnv) (meanwhile : (db : Database) → Evolves db (env.meanwhile db)) where
  after_insert-Evolves :
      (db : Database) (a : Text) (op : Operation) (p : IntentParams) (position : Envelope)
      (r : Option Database)
      → insert_intent db (new_intent env a op p) ≡ r
      → Evolves db (after_insert env db op p position r).1
  unfolding after_insert
  after_insert-Evolves db a op p position none e = Evolves-refl db
  after_insert-Evolves db a op p position (some db') e =
      insert_intent-Evolves db db' (new_intent env a op p) e

  after_check-Evolves :
      (db : Database) (a : Text) (op : Operation) (p : IntentParams) (position : Envelope)
      (r : Result (Unit {0}))
      → Evolves db (after_check env db a op p position r).1
  unfolding after_check
  after_check-Evolves db a op p position (err e) = Evolves-refl db
  after_check-Evolves db a op p position (ok _) =
      after_insert-Evolves db a op p position (insert_intent db (new_intent env a op p)) refl

  after_position-Evolves :
      (db : Database) (a : Text) (op : Operation) (p : IntentParams) (r : Result Envelope)
      → Evolves db (after_position env db a op p r).1
  unfolding after_position
  after_position-Evolves db a op p (err e) = Evolves-refl db
  after_position-Evolves db a op p (ok position) =
      after_check-Evolves db a op p position (check_position op p position)

  after_parse-Evolves :
      (db : Database) (cache : PositionCache) (a : Text) (r : Result (Operation × IntentParams))
      → Evolves db (after_parse env db cache a r).1
  unfolding after_parse
  after_parse-Evolves db cache a (err e) = Evolves-refl db
  after_parse-Evolves db cache a (ok (op, p)) =
      let cleared = (expire_abandoned_pending_intents db a).0 in
      let read = read_staking_position env.rpc cleared cache (create_read env.now_ms a) in
      Evolves-trans (expire_abandoned-Evolves db a) (
        Evolves-trans (read-Evolves env.rpc cleared cache (create_read env.now_ms a)) (
          Evolves-trans (meanwhile read.1)
            (after_position-Evolves (env.meanwhile read.1) a op p read.0)))

  -- Creating an intent, whether it succeeds or not, leaves every earlier intent in place; only a
  -- pending one may change, and a settled one is untouched, if the requests served meanwhile do
  -- the same.
  pub create-Evolves :
      (db : Database) (cache : PositionCache) (user : Text) (operation params : Value)
      → Evolves db (create_staking_intent env db cache user operation params).1
  unfolding create_staking_intent
  create-Evolves db cache user operation params =
      after_parse-Evolves db cache (normalize_address user) (parse_request operation params)

module _ (env : ConfirmEnv) (fetching : (db : Database) → Evolves db (env.fetching db))
    (reading : (db : Database) → Evolves db (env.reading db)) where
  pub show_position-Evolves :
      (a : Text) (db : Database) (tx : Transaction) → Evolves db (show_position env a db tx).1
  unfolding show_position
  show_position-Evolves a db tx =
      Evolves-trans (reading db)
        (read-Evolves env.rpc (env.reading db) [] (confirm_read env.now_ms a))

  settle-Evolves :
      (a : Text) (db : Database) (cache : PositionCache) (id hash : Text) (tx : Transaction)
      (v : Verdict)
      → Evolves db (settle env a db cache id hash tx v).1
  unfolding settle
  settle-Evolves a db cache id hash tx execution_failed = fail_intent-Evolves db id _
  settle-Evolves a db cache id hash tx mismatch = Evolves-refl db
  settle-Evolves a db cache id hash tx matched =
      let time = at env.now_ms in
      let hash' = confirmed_hash tx hash in
      let step = confirm_intent-Evolves db id hash' time in
      elim (Bool-cases ((confirm_intent db id hash' time).1 == 1)) [
        | inl e ↦
            rw e
              (Evolves-trans step (show_position-Evolves a (confirm_intent db id hash' time).0 tx))
        | inr e ↦ rw e step
      ]

  after_fetch-Evolves :
      (a : Text) (db : Database) (cache : PositionCache) (id hash : Text) (row : IntentRow)
      (r : Reply (Option Transaction))
      → Evolves db (after_fetch env a db cache id hash row r).1
  unfolding after_fetch
  after_fetch-Evolves a db cache id hash row (Rpc.failed e) = Evolves-refl db
  after_fetch-Evolves a db cache id hash row (returned none) = Evolves-refl db
  after_fetch-Evolves a db cache id hash row (returned (some tx)) =
      settle-Evolves a db cache id hash tx (judge row a tx)

  after_admission-Evolves :
      (a : Text) (db : Database) (cache : PositionCache) (id hash : Text) (r : Admission)
      → Evolves db (after_admission env a db cache id hash r).1
  unfolding after_admission
  after_admission-Evolves a db cache id hash (refused e) = Evolves-refl db
  after_admission-Evolves a db cache id hash lapsed = expire_intent-Evolves db id
  after_admission-Evolves a db cache id hash (admitted row) =
      Evolves-trans (fetching db)
        (after_fetch-Evolves a (env.fetching db) cache id hash row (env.fetch_tx hash))

  after_request-Evolves :
      (a : Text) (db : Database) (cache : PositionCache) (i h : Result Text)
      → Evolves db (after_request env a db cache i h).1
  unfolding after_request
  after_request-Evolves a db cache (err e) h = Evolves-refl db
  after_request-Evolves a db cache (ok id) (err e) = Evolves-refl db
  after_request-Evolves a db cache (ok id) (ok hash) =
      after_admission-Evolves a db cache id hash (admit (get_intent_by_id db id) a env.now_ms)

  -- So does a confirmation, on every branch.
  pub confirm-Evolves :
      (db : Database) (cache : PositionCache) (user : Text) (id hash : Value)
      → Evolves db (confirm_staking_intent env db cache user id hash).1
  unfolding confirm_staking_intent
  confirm-Evolves db cache user id hash =
      after_request-Evolves (normalize_address user) db cache (intent_id_of id)
        (normalize_provider_tx_ref env.from_any hash)

show_owned-Evolves :
    (db : Database) (network : Option Text) (a : Text) (now : ℕ) (r : Option IntentRow)
    → Evolves db (show_owned db network a now r).1
unfolding show_owned
show_owned-Evolves db network a now none = Evolves-refl db
show_owned-Evolves db network a now (some row) =
    elim (Bool-cases (addresses_equal (some row.user_address) (some a))) [
      | inl e ↦
          elim (Bool-cases (is_pending row.status && is_past (parse_date row.expires_at) now)) [
            | inl f ↦ rw (e, f) (expire_intent-Evolves db row.id)
            | inr f ↦ rw (e, f) (Evolves-refl db)
          ]
      | inr e ↦ rw e (Evolves-refl db)
    ]

-- So does a look at an intent.
pub owned-Evolves :
    (db : Database) (network : Option Text) (user id : Text) (now : ℕ)
    → Evolves db (get_owned_intent db network user id now).1
unfolding get_owned_intent
owned-Evolves db network user id now =
    show_owned-Evolves db network (normalize_address user) now (get_intent_by_id db id)
