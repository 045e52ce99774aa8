-- ===== src/Intents/Confirm/Laws.antt =====
-- What a confirmation by confirmStakingIntent (server/src/stakingIntents.ts) rests on.
use steakout.Prelude.{ℕ, ◌<◌, ◌≡◌, refl, ◌∙◌, Text, true, Option, none, some, arith}
use steakout.Prelude.Js.{parse_date, iso_rank}
use steakout.Addresses.{normalize_address, addresses_equal}
use steakout.Api.{Result, ok, err}
use steakout.Rpc.{Reply, returned, Transaction}
use steakout.Rpc
use steakout.Database.{Database, IntentRow}
use steakout.Reading.{PositionCache, is_pending}
use steakout.Intents.Request.{Value, normalize_provider_tx_ref}
use steakout.Intents.Rows.{get_intent_by_id}
use steakout.Intents.Confirm.{
  ConfirmEnv, ConfirmSuccess, Verdict, execution_failed, mismatch, matched, Admission, refused,
  lapsed, admitted, admit, judge, match_amount, stored_params, intent_id_of, settle, after_fetch,
  after_admission, after_request, confirm_staking_intent,
}

-- What the server has seen when it confirms: the caller's own pending and unexpired intent, and a
-- transaction on chain that the caller sent, that executed, and whose value is the recorded amount.
pub record Evidence (env : ConfirmEnv) (db : Database) (address id : Text) : Type 0 where
  pub row : IntentRow
  pub tx : Transaction
  pub tx_hash : Text
  pub expires_at : ℕ
  pub found : get_intent_by_id db id ≡ some row
  pub owned : addresses_equal (some row.user_address) (some address) ≡ true
  pub pending : is_pending row.status ≡ true
  pub expiry : parse_date row.expires_at ≡ some expires_at
  pub in_time : env.now_ms < expires_at
  pub fetched : env.fetch_tx tx_hash ≡ returned (some tx)
  pub executed : tx.execution_result ≡ true
  pub sender : addresses_equal (some tx.from) (some address) ≡ true
  pub amount : match_amount (stored_params row.params_json) tx.value ≡ true

judge_matched :
    (row : IntentRow) (address : Text) (tx : Transaction)
    → judge row address tx ≡ matched
    → (tx.execution_result ≡ true)
      × (addresses_equal (some tx.from) (some address) ≡ true)
      × (match_amount (stored_params row.params_json) tx.value ≡ true)
unfolding judge
judge_matched row address tx h = ground arith

pub admit-admitted :
    (found : Option IntentRow) (address : Text) (now_ms : ℕ) (row : IntentRow)
    → admit found address now_ms ≡ admitted row
    → (t : ℕ) × (found ≡ some row)
      × (addresses_equal (some row.user_address) (some address) ≡ true)
      × (is_pending row.status ≡ true)
      × (parse_date row.expires_at ≡ some t)
      × (now_ms < t)
unfolding admit
admit-admitted none address now_ms row h = absurd (ground arith)
admit-admitted (some r) address now_ms row h =
    (iso_rank row.expires_at, ground arith, ground arith, ground arith, ground arith, ground arith)

module _ (env : ConfirmEnv) (address : Text) where
  settle-ok :
      (db : Database) (cache : PositionCache) (id hash : Text) (tx : Transaction) (v : Verdict)
      (s : ConfirmSuccess)
      → (settle env address db cache id hash tx v).0 ≡ ok s
      → v ≡ matched
  unfolding settle
  settle-ok db cache id hash tx execution_failed s h = cc
  settle-ok db cache id hash tx mismatch s h = cc
  settle-ok db cache id hash tx matched s h = refl

  after_fetch-ok :
      (db : Database) (cache : PositionCache) (id hash : Text) (row : IntentRow)
      (r : Reply (Option Transaction)) (s : ConfirmSuccess)
      → (after_fetch env address db cache id hash row r).0 ≡ ok s
      → (tx : Transaction) × (r ≡ returned (some tx)) × (judge row address tx ≡ matched)
  unfolding after_fetch
  after_fetch-ok db cache id hash row (Rpc.failed e) s h = absurd (ground arith)
  after_fetch-ok db cache id hash row (returned none) s h = absurd (ground arith)
  after_fetch-ok db cache id hash row (returned (some tx)) s h =
      (tx, refl, settle-ok db cache id hash tx (judge row address tx) s h)

  after_admission-ok :
      (db : Database) (cache : PositionCache) (id hash : Text) (found : Option IntentRow)
      (a : Admission) (s : ConfirmSuccess)
      → get_intent_by_id db id ≡ found
      → admit found address env.now_ms ≡ a
      → (after_admission env address db cache id hash a).0 ≡ ok s
      → Evidence env db address id
  unfolding after_admission
  after_admission-ok db cache id hash found (refused e) s f a h = absurd (ground arith)
  after_admission-ok db cache id hash found lapsed s f a h = absurd (ground arith)
  after_admission-ok db cache id hash found (admitted row) s f a h =
      let (t, same, owned, pending, expiry, in_time) =
        admit-admitted found address env.now_ms row a in
      let (tx, fetched, verdict) =
        after_fetch-ok (env.fetching db) cache id hash row (env.fetch_tx hash) s h in
      let (executed, sender, amount) = judge_matched row address tx verdict in
      record {
        row = row;
        tx = tx;
        tx_hash = hash;
        expires_at = t;
        found = f ∙ same;
        owned = owned;
        pending = pending;
        expiry = expiry;
        in_time = in_time;
        fetched = fetched;
        executed = executed;
        sender = sender;
        amount = amount;
      }

  after_request-ok :
      (db : Database) (cache : PositionCache) (i h : Result Text) (s : ConfirmSuccess)
      → (after_request env address db cache i h).0 ≡ ok s
      → (id : Text) × (i ≡ ok id) × Evidence env db address id
  unfolding after_request
  after_request-ok db cache (err e) h s p = absurd (ground arith)
  after_request-ok db cache (ok id) (err e) s p = absurd (ground arith)
  after_request-ok db cache (ok id) (ok hash) s p =
      (id, refl, after_admission-ok db cache id hash (get_intent_by_id db id) _ s refl refl p)

-- A confirmation succeeds only on evidence from the chain: whatever the client claims, there is an
-- intent with the id that was sent, which is the caller's, pending and not expired, and the chain
-- has returned a transaction that executed, was sent by the caller, and carries the amount that the
-- intent records, where it records one.
pub confirm_sound :
    (env : ConfirmEnv) (db : Database) (cache : PositionCache) (user : Text) (id hash : Value)
    (s : ConfirmSuccess)
    → (confirm_staking_intent env db cache user id hash).0 ≡ ok s
    → (i : Text) × (intent_id_of id ≡ ok i) × Evidence env db (normalize_address user) i
unfolding confirm_staking_intent
confirm_sound env db cache user id hash s h =
    after_request-ok env (normalize_address user) db cache (intent_id_of id)
      (normalize_provider_tx_ref env.from_any hash) s h
