-- ===== src/Intents/Confirm/Once.antt =====
-- confirmStakingIntent (server/src/stakingIntents.ts), called again for an intent that is settled.
use steakout.Prelude.{
  ℕ, ◌≡◌, refl, Text, false, Option, none, some, arith, ◌==◌, if◌then◌else◌, Bool-cases, inl, inr,
}
use mathlib.Core.Path.{subst}
use steakout.Prelude.Js.{at, Iso}
use steakout.Addresses.{normalize_address, addresses_equal}
use steakout.Api.{Result, ok, err, ApiError, invalid}
use steakout.Rpc.{Reply, returned, Transaction}
use steakout.Rpc
use steakout.Database.{Database, IntentRow}
use steakout.Reading.{PositionCache, is_pending}
use steakout.Intents.Request.{Value, normalize_provider_tx_ref}
use steakout.Intents.Rows.{get_intent_by_id, confirm_intent}
use steakout.Intents.Rows.Laws.{confirmed_row, get_intent_by_id-confirm}
use steakout.Intents.Confirm.Laws.{admit-admitted}
use steakout.Intents.Machine.{Runs, Runs-Evolves, IsSettled, IsSettled-Evolves}
use steakout.Intents.Life.{show_position-Evolves}
use steakout.Intents.Confirm.{
  ConfirmEnv, ConfirmSuccess, Verdict, execution_failed, mismatch, matched, Admission, refused,
  lapsed, admitted, admit, judge, intent_id_of, settle, after_fetch, after_admission, after_request,
  confirm_staking_intent, confirmed_hash, not_found,
}

status_after :
    (row : IntentRow) (hash : Text) (time : Iso)
    → is_pending (if is_pending row.status then confirmed_row hash time row else row).status ≡ false
status_after row hash time = ground arith

confirm_intent-IsSettled :
    (db : Database) (id hash : Text) (time : Iso) (row : IntentRow)
    → get_intent_by_id db id ≡ some row
    → IsSettled (confirm_intent db id hash time).0 id
confirm_intent-IsSettled db id hash time row h = record {
  row = if is_pending row.status then confirmed_row hash time row else row;
  found = get_intent_by_id-confirm db id hash time row h;
  settled = status_after row hash time;
}

module _ (env : ConfirmEnv) (fetching : (d : Database) → Runs d (env.fetching d))
    (reading : (d : Database) → Runs d (env.reading d)) (address : Text) where
  settle-IsSettled :
      (db : Database) (cache : PositionCache) (id hash : Text) (tx : Transaction) (v : Verdict)
      (row : IntentRow) (s : ConfirmSuccess)
      → get_intent_by_id db id ≡ some row
      → (settle env address db cache id hash tx v).0 ≡ ok s
      → IsSettled (settle env address db cache id hash tx v).1 id
  unfolding settle
  settle-IsSettled db cache id hash tx execution_failed row s f h = absurd (ground arith)
  settle-IsSettled db cache id hash tx mismatch row s f h = absurd (ground arith)
  settle-IsSettled db cache id hash tx matched row s f h =
      let time = at env.now_ms in
      let step = confirm_intent-IsSettled db id (confirmed_hash tx hash) time row f in
      let next = (confirm_intent db id (confirmed_hash tx hash) time).0 in
      elim (Bool-cases ((confirm_intent db id (confirmed_hash tx hash) time).1 == 1)) [
        | inl e ↦ rw e (
            IsSettled-Evolves id
              (show_position-Evolves env (λ d. Runs-Evolves (fetching d))
                (λ d. Runs-Evolves (reading d)) address next tx)
              step)
        | inr e ↦ rw e step
      ]

  after_fetch-IsSettled :
      (db : Database) (cache : PositionCache) (id hash : Text) (row row' : IntentRow)
      (r : Reply (Option Transaction)) (s : ConfirmSuccess)
      → get_intent_by_id db id ≡ some row'
      → (after_fetch env address db cache id hash row r).0 ≡ ok s
      → IsSettled (after_fetch env address db cache id hash row r).1 id
  unfolding after_fetch
  after_fetch-IsSettled db cache id hash row row' (Rpc.failed e) s f h = absurd (ground arith)
  after_fetch-IsSettled db cache id hash row row' (returned none) s f h = absurd (ground arith)
  after_fetch-IsSettled db cache id hash row row' (returned (some tx)) s f h =
      settle-IsSettled db cache id hash tx (judge row address tx) row' s f h

  after_admission-IsSettled :
      (db : Database) (cache : PositionCache) (id hash : Text) (a : Admission) (s : ConfirmSuccess)
      → admit (get_intent_by_id db id) address env.now_ms ≡ a
      → (after_admission env address db cache id hash a).0 ≡ ok s
      → IsSettled (after_admission env address db cache id hash a).1 id
  unfolding after_admission
  after_admission-IsSettled db cache id hash (refused e) s a h = absurd (ground arith)
  after_admission-IsSettled db cache id hash lapsed s a h = absurd (ground arith)
  after_admission-IsSettled db cache id hash (admitted row) s a h =
      let found = (admit-admitted (get_intent_by_id db id) address env.now_ms row a).1 in
      let (row', found', _) = (Runs-Evolves (fetching db)).at id row found in
      after_fetch-IsSettled (env.fetching db) cache id hash row row' (env.fetch_tx hash) s found' h

  after_request-IsSettled :
      (db : Database) (cache : PositionCache) (id : Text) (h : Result Text) (s : ConfirmSuccess)
      → (after_request env address db cache (ok id) h).0 ≡ ok s
      → IsSettled (after_request env address db cache (ok id) h).1 id
  unfolding after_request
  after_request-IsSettled db cache id (err e) s p = absurd (ground arith)
  after_request-IsSettled db cache id (ok hash) s p =
      after_admission-IsSettled db cache id hash (admit (get_intent_by_id db id) address env.now_ms)
        s refl p

  request-IsSettled :
      (db : Database) (cache : PositionCache) (id : Text) (i h : Result Text) (s : ConfirmSuccess)
      → i ≡ ok id
      → (after_request env address db cache i h).0 ≡ ok s
      → IsSettled (after_request env address db cache i h).1 id
  unfolding after_request
  request-IsSettled db cache id (err e) h s named p = absurd (ground arith)
  request-IsSettled db cache id (ok i) h s named p =
      let same : i ≡ id = ground arith in
      subst (IsSettled (after_request env address db cache (ok i) h).1) same
        (after_request-IsSettled db cache i h s p)

-- After a confirmation that succeeds the intent has left `pending`.
pub confirm-IsSettled :
    (env : ConfirmEnv) (db : Database) (cache : PositionCache) (user id : Text)
    (id_value hash : Value) (s : ConfirmSuccess)
    → ((d : Database) → Runs d (env.fetching d))
    → ((d : Database) → Runs d (env.reading d))
    → intent_id_of id_value ≡ ok id
    → (confirm_staking_intent env db cache user id_value hash).0 ≡ ok s
    → IsSettled (confirm_staking_intent env db cache user id_value hash).1 id
unfolding confirm_staking_intent
confirm-IsSettled env db cache user id id_value hash s fetching reading named won =
    request-IsSettled env fetching reading (normalize_address user) db cache id
      (intent_id_of id_value) (normalize_provider_tx_ref env.from_any hash) s named won

admit_settled :
    (row : IntentRow) (address : Text) (now_ms : ℕ)
    → is_pending row.status ≡ false
    → (e : ApiError) × (admit (some row) address now_ms ≡ refused e)
unfolding admit
admit_settled row address now_ms h =
    elim (Bool-cases (addresses_equal (some row.user_address) (some address))) [
      | inl e ↦ (invalid, rw (e, h))
      | inr e ↦ (not_found, rw e)
    ]

-- A request for an intent that has left `pending` is refused, whoever sends it and whatever it
-- claims, and changes nothing.
pub settled_refused :
    (env : ConfirmEnv) (db : Database) (cache : PositionCache) (user id : Text)
    (id_value hash : Value)
    → intent_id_of id_value ≡ ok id
    → IsSettled db id
    → (e : ApiError) × (confirm_staking_intent env db cache user id_value hash ≡ (err e, db, cache))
unfolding confirm_staking_intent
settled_refused env db cache user id id_value hash named s =
    rw named (refused_request (normalize_provider_tx_ref env.from_any hash))
  where
    refused_request :
        (r : Result Text)
        → (e : ApiError) × (after_request env (normalize_address user) db cache (ok id) r
            ≡ (err e, db, cache))
    refused_request (err e) = (e, refl)
    refused_request (ok h) =
        let (e, denied) = admit_settled s.row (normalize_address user) env.now_ms s.settled in
        (e, rw (s.found, denied))

-- Once a confirmation has succeeded, and whatever requests are served after it, no further
-- confirmation of the same intent succeeds, by any user, with any transaction; it changes nothing.
pub confirm_once :
    (env env' : ConfirmEnv) (db later : Database) (cache cache' : PositionCache)
    (user user' id : Text) (id_value id_value' hash hash' : Value) (s : ConfirmSuccess)
    → ((d : Database) → Runs d (env.fetching d))
    → ((d : Database) → Runs d (env.reading d))
    → intent_id_of id_value ≡ ok id
    → intent_id_of id_value' ≡ ok id
    → (confirm_staking_intent env db cache user id_value hash).0 ≡ ok s
    → Runs (confirm_staking_intent env db cache user id_value hash).1 later
    → (e : ApiError) × (confirm_staking_intent env' later cache' user' id_value' hash'
        ≡ (err e, later, cache'))
confirm_once env env' db later cache cache' user user' id id_value id_value' hash hash' s fetching
      reading named named' won runs =
    settled_refused env' later cache' user' id id_value' hash' named' (
      IsSettled-Evolves id (Runs-Evolves runs)
        (confirm-IsSettled env db cache user id id_value hash s fetching reading named won))
