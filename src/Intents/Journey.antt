-- ===== src/Intents/Journey.antt =====
-- From a created intent to its confirmation.
use steakout.Prelude.{ℕ, ◌+◌, ◌<◌, ◌≡◌, refl, ◌∙◌, Text, true, some, arith, count}
use mathlib.Core.Path.{subst}
use steakout.Addresses.{normalize_address, is_valid_nimiq_address, addresses_equal}
use steakout.Addresses.Laws.{addresses_equal_iff, is_valid_normalize}
use steakout.Api.{ok, is_ok}
use steakout.Rpc.{returned, Transaction}
use steakout.Staking.{Operation, IntentParams}
use steakout.Database.{Database, IntentRow}
use steakout.Reading.{PositionCache}
use steakout.Intents.Request.{Value, normalize_provider_tx_ref}
use steakout.Intents.Rows.{get_intent_by_id, is_pending_id, confirm_intent}
use steakout.Intents.Create.{
  CreateEnv, CreateIntentResult, parse_request, create_staking_intent, intent_ttl_ms, new_intent,
}
use steakout.Intents.Create.Laws.{create_sound}
use steakout.Intents.Confirm.{
  ConfirmEnv, confirm_staking_intent, intent_id_of, match_amount, admit, admitted, judge, matched,
  settle, show_position, after_request, after_admission, after_fetch,
}

normalized_equal :
    (user : Text)
    → is_valid_nimiq_address (some user) ≡ true
    → addresses_equal (some (normalize_address user)) (some (normalize_address user)) ≡ true
normalized_equal user h =
    (addresses_equal_iff (normalize_address user) (normalize_address user)).1
      (is_valid_normalize user ∙ h, refl)

admit_new :
    (env : CreateEnv) (user : Text) (op : Operation) (p : IntentParams) (now : ℕ)
    → is_valid_nimiq_address (some user) ≡ true
    → now < env.now_ms + intent_ttl_ms
    → admit (some (new_intent env (normalize_address user) op p)) (normalize_address user) now
      ≡ admitted (new_intent env (normalize_address user) op p)
unfolding admit new_intent
admit_new env user op p now valid early = rw (normalized_equal user valid) (ground arith)

judge_new :
    (env : CreateEnv) (user : Text) (op : Operation) (p : IntentParams) (tx : Transaction)
    → tx.execution_result ≡ true
    → addresses_equal (some tx.from) (some (normalize_address user)) ≡ true
    → match_amount p tx.value ≡ true
    → judge (new_intent env (normalize_address user) op p) (normalize_address user) tx ≡ matched
unfolding judge new_intent
judge_new env user op p tx executed sender amount = rw (executed, sender, amount)

settle_sole :
    (env : ConfirmEnv) (a : Text) (db : Database) (cache : PositionCache) (id hash : Text)
    (tx : Transaction)
    → count (is_pending_id id) db.staking_intents ≡ 1
    → is_ok (settle env a db cache id hash tx matched).0 ≡ true
unfolding settle confirm_intent show_position
settle_sole env a db cache id hash tx h = ground arith

confirm_found :
    (env : ConfirmEnv) (a : Text) (db : Database) (cache : PositionCache) (id hash : Text)
    (row : IntentRow) (tx : Transaction)
    → get_intent_by_id db id ≡ some row
    → admit (some row) a env.now_ms ≡ admitted row
    → ((d : Database) → env.fetching d ≡ d)
    → env.fetch_tx hash ≡ returned (some tx)
    → judge row a tx ≡ matched
    → count (is_pending_id id) db.staking_intents ≡ 1
    → is_ok (after_request env a db cache (ok id) (ok hash)).0 ≡ true
unfolding after_request after_admission after_fetch
confirm_found env a db cache id hash row tx found admits alone fetched judged sole =
    rw (found, admits, fetched, alone db, judged) (settle_sole env a db cache id hash tx sole)

-- An intent that was created is confirmed within its fifteen minutes by its creator, with a
-- transaction of theirs that executed and carries the recorded amount, if nothing else was served
-- between the creation and the confirmation, nor while the transaction was fetched: the confirmation
-- starts on the tables that the creation left.
pub create_then_confirm :
    (env : CreateEnv) (env' : ConfirmEnv) (db : Database) (cache cache' : PositionCache)
    (user : Text) (operation params id_value hash_value : Value) (hash : Text) (tx : Transaction)
    (op : Operation) (p : IntentParams) (r : CreateIntentResult)
    → is_valid_nimiq_address (some user) ≡ true
    → parse_request operation params ≡ ok (op, p)
    → (create_staking_intent env db cache user operation params).0 ≡ ok r
    → env'.now_ms < env.now_ms + intent_ttl_ms
    → ((d : Database) → env'.fetching d ≡ d)
    → intent_id_of id_value ≡ ok env.fresh_id
    → normalize_provider_tx_ref env'.from_any hash_value ≡ ok hash
    → env'.fetch_tx hash ≡ returned (some tx)
    → tx.execution_result ≡ true
    → addresses_equal (some tx.from) (some (normalize_address user)) ≡ true
    → match_amount p tx.value ≡ true
    → is_ok
        (confirm_staking_intent env'
          (create_staking_intent env db cache user operation params).1
          cache'
          user
          id_value
          hash_value).0
      ≡ true
unfolding confirm_staking_intent
create_then_confirm env env' db cache cache' user operation params id_value hash_value hash tx op p
      r valid parsed created early alone named hashed fetched executed sender amount =
    let a = normalize_address user in
    let after = (create_staking_intent env db cache user operation params).1 in
    let seen = create_sound env db cache user operation params r created in
    let same : p ≡ seen.p = cc (parsed, seen.parsed) in
    let judged =
      judge_new env user seen.op seen.p tx executed sender
        (subst (λ q. match_amount q tx.value ≡ true) same amount) in
    rw (named, hashed)
      (confirm_found env' a after cache' env.fresh_id hash (new_intent env a seen.op seen.p) tx
        seen.found (admit_new env user seen.op seen.p env'.now_ms valid early) alone fetched judged
        seen.sole)
