-- ===== src/Intents/Create/Laws.antt =====
-- What an intent recorded by createStakingIntent (server/src/stakingIntents.ts) rests on.
use steakout.Prelude.{◌≡◌, refl, Text, Option, none, some, arith, count}
use steakout.Addresses.{normalize_address}
use steakout.Api.{Result, ok, err}
use steakout.Staking.{Operation, IntentParams}
use steakout.Database.{Database}
use steakout.Reading.{Envelope, PositionCache, read_staking_position}
use steakout.Intents.Request.{Value}
use steakout.Intents.Rows.{
  get_intent_by_id, is_pending_id, insert_intent, expire_abandoned_pending_intents,
}
use steakout.Intents.Rows.Laws.{get_intent_by_id-insert, count-insert}
use steakout.Intents.Create.{
  CreateEnv, CreateIntentResult, parse_request, check_position, new_intent, create_read,
  after_insert, after_check, after_position, after_parse, create_staking_intent,
}

-- What the server has seen when it records an intent: a request that parses, and a position, read
-- past the cache after the caller's abandoned intents were expired, that passes the checks. The
-- intent is then found under its id.
pub record Recorded (env : CreateEnv) (db : Database) (cache : PositionCache) (user : Text)
    (operation params : Value) (r : CreateIntentResult) (after : Database) : Type 0 where
  pub op : Operation
  pub p : IntentParams
  pub position : Envelope
  pub parsed : parse_request operation params ≡ ok (op, p)
  pub read :
      (read_staking_position env.rpc
        (expire_abandoned_pending_intents db (normalize_address user)).0
        cache
        (create_read env.now_ms (normalize_address user))).0
      ≡ ok position
  pub checked : check_position op p position ≡ ok tt
  pub named : r.intent_id ≡ env.fresh_id
  pub found :
      get_intent_by_id after env.fresh_id ≡ some (new_intent env (normalize_address user) op p)
  pub sole : count (is_pending_id env.fresh_id) after.staking_intents ≡ 1

module _ (env : CreateEnv) where
  after_insert-ok :
      (db : Database) (a : Text) (op : Operation) (p : IntentParams) (position : Envelope)
      (i : Option Database) (r : CreateIntentResult)
      → insert_intent db (new_intent env a op p) ≡ i
      → (after_insert env db op p position i).0 ≡ ok r
      → (r.intent_id ≡ env.fresh_id)
        × (get_intent_by_id (after_insert env db op p position i).1 env.fresh_id
            ≡ some (new_intent env a op p))
        × (count
              (is_pending_id env.fresh_id)
              (after_insert env db op p position i).1.staking_intents
            ≡ 1)
  unfolding after_insert new_intent
  after_insert-ok db a op p position none r e h = absurd (ground arith)
  after_insert-ok db a op p position (some db') r e h = (
    ground arith,
    get_intent_by_id-insert db db' (new_intent env a op p) e,
    count-insert db db' (new_intent env a op p) e refl,
  )

  after_check-ok :
      (db : Database) (a : Text) (op : Operation) (p : IntentParams) (position : Envelope)
      (c : Result (Unit {0})) (r : CreateIntentResult)
      → (after_check env db a op p position c).0 ≡ ok r
      → (c ≡ ok tt)
        × (r.intent_id ≡ env.fresh_id)
        × (get_intent_by_id (after_check env db a op p position c).1 env.fresh_id
            ≡ some (new_intent env a op p))
        × (count
              (is_pending_id env.fresh_id)
              (after_check env db a op p position c).1.staking_intents
            ≡ 1)
  unfolding after_check
  after_check-ok db a op p position (err e) r h = absurd (ground arith)
  after_check-ok db a op p position (ok u) r h =
      let (named, found, sole) =
        after_insert-ok db a op p position (insert_intent db (new_intent env a op p)) r refl h in
      (refl, named, found, sole)

  after_position-ok :
      (db : Database) (a : Text) (op : Operation) (p : IntentParams) (read : Result Envelope)
      (r : CreateIntentResult)
      → (after_position env db a op p read).0 ≡ ok r
      → (position : Envelope) × (read ≡ ok position)
        × (check_position op p position ≡ ok tt)
        × (r.intent_id ≡ env.fresh_id)
        × (get_intent_by_id (after_position env db a op p read).1 env.fresh_id
            ≡ some (new_intent env a op p))
        × (count (is_pending_id env.fresh_id) (after_position env db a op p read).1.staking_intents
            ≡ 1)
  unfolding after_position
  after_position-ok db a op p (err e) r h = absurd (ground arith)
  after_position-ok db a op p (ok position) r h =
      let (checked, named, found, sole) =
        after_check-ok db a op p position (check_position op p position) r h in
      (position, refl, checked, named, found, sole)

  after_parse-ok :
      (db : Database) (cache : PositionCache) (user : Text) (operation params : Value)
      (parsed : Result (Operation × IntentParams)) (r : CreateIntentResult)
      → parse_request operation params ≡ parsed
      → (after_parse env db cache (normalize_address user) parsed).0 ≡ ok r
      → Recorded env db cache user operation params r
          (after_parse env db cache (normalize_address user) parsed).1
  unfolding after_parse
  after_parse-ok db cache user operation params (err e) r q h = absurd (ground arith)
  after_parse-ok db cache user operation params (ok (op, p)) r q h =
      let a = normalize_address user in
      let read =
        read_staking_position env.rpc (expire_abandoned_pending_intents db a).0 cache
          (create_read env.now_ms a) in
      let (position, was_read, checked, named, found, sole) =
        after_position-ok (env.meanwhile read.1) a op p read.0 r h in
      record {
        op = op;
        p = p;
        position = position;
        parsed = q;
        read = was_read;
        checked = checked;
        named = named;
        found = found;
        sole = sole;
      }

  -- An intent is created only for a request that parses and a position, read from the chain, that
  -- passes every check; it is then found under the id returned: pending, with the parameters as
  -- parsed, for the caller's normalized address, to expire after fifteen minutes.
  pub create_sound :
      (db : Database) (cache : PositionCache) (user : Text) (operation params : Value)
      (r : CreateIntentResult)
      → (create_staking_intent env db cache user operation params).0 ≡ ok r
      → Recorded env db cache user operation params r
          (create_staking_intent env db cache user operation params).1
  unfolding create_staking_intent
  create_sound db cache user operation params r h =
      after_parse-ok db cache user operation params (parse_request operation params) r refl h
