-- ===== src/Reading/Laws.antt =====
-- readStakingPosition (server/src/stakingState.ts): its cache, its snapshots and its failures.
use steakout.Prelude.{
  ℕ, ◌+◌, ◌-◌, ◌/◌, ◌≤◌, ◌<◌, ◌≡◌, refl, sym, ap, ◌∙◌, Text, text_eq_refl, Bool, true, false,
  Option, none, some, [], ◌∷◌, arith, any, All, any-last, Bool-cases, inl, inr,
}
use mathlib.Core.Bool.{false≢true}
use steakout.Prelude.Js.{NumField}
use steakout.Addresses.{normalize_address}
use steakout.Addresses.Laws.{sql_address-normalize}
use steakout.Api.{Result, ok, err, ApiError}
use steakout.Rpc.{Reply, returned}
use steakout.Database.{Database, SnapshotRow}
use steakout.Position.{
  active, NimiqStaker, StakerBalances, normalize_position_state, parse_staker_balances, luna_of,
}
use steakout.Wallet.{WalletBalance}
use steakout.Reading.{
  Envelope, CacheEntry, PositionCache, PositionRpc, ReadOptions, cache_get, cached_position,
  position_cache_ttl_ms, snapshot_throttle_ms, is_garbage_active, stamped,
  maybe_write_staker_snapshot, is_recent_for, position_of, record_position, read_staker,
  cache_lookup, after_staker, after_lookup, read_staking_position, from_cache, pending_tx,
}

-- The guard after the state machine never fires: a readable payload that is shown as active has a
-- positive balance.
pub guard_never_fires :
    (staker : Option NimiqStaker) (pending : Bool) (b : StakerBalances)
    → parse_staker_balances staker ≡ some b
    → is_garbage_active (normalize_position_state staker pending) staker ≡ false
unfolding parse_staker_balances normalize_position_state is_garbage_active
guard_never_fires none true b h = refl
guard_never_fires none false b h = refl
guard_never_fires (some s) true b h = refl
guard_never_fires (some s) false b h = ground arith

recent_of_stamped :
    (row row' : SnapshotRow) (now later : ℕ)
    → normalize_address row.user_address ≡ normalize_address row'.user_address
    → later ≤ now + snapshot_throttle_ms
    → is_recent_for (normalize_address row'.user_address) later (stamped row now) ≡ true
unfolding is_recent_for stamped
recent_of_stamped row row' now later same close =
    rw (sql_address-normalize row.user_address, same, text_eq_refl) (ground arith)

-- A second snapshot of the same user within an hour of the first is not written.
pub snapshot_throttled :
    (db : Database) (row row' : SnapshotRow) (now later : ℕ)
    → normalize_address row.user_address ≡ normalize_address row'.user_address
    → later ≤ now + snapshot_throttle_ms
    → (maybe_write_staker_snapshot db row now).1 ≡ true
    → maybe_write_staker_snapshot (maybe_write_staker_snapshot db row now).0 row' later
      ≡ ((maybe_write_staker_snapshot db row now).0, false)
unfolding maybe_write_staker_snapshot
snapshot_throttled db row row' now later same close wrote =
    elim (Bool-cases
      (any (is_recent_for (normalize_address row.user_address) now) db.staker_snapshots)) [
        | inl e ↦ absurd (false≢true (rw e at wrote))
        | inr e ↦
            rw (
              e,
              any-last _ db.staker_snapshots _ (recent_of_stamped row row' now later same close),
            )
      ]

-- Every entry expires one time to live after its envelope was read.
abbrev pub IsTimed : PositionCache → Type 0
IsTimed = All (λ (entry : Text × CacheEntry).
    (entry.1).expires_at ≡ (entry.1).envelope.updated_at + position_cache_ttl_ms)

IsTimed-get :
    (cache : PositionCache) (key : Text) (entry : CacheEntry)
    → IsTimed cache
    → cache_get key cache ≡ some entry
    → entry.expires_at ≡ entry.envelope.updated_at + position_cache_ttl_ms
unfolding cache_get
IsTimed-get [] key entry h e = cc
IsTimed-get ((k, first) ∷ cache) key entry (h, rest) e =
    ground (arith, IsTimed-get cache key entry rest)

-- A hit returns the envelope that was stored with its own status: within its time to live no entry
-- is old enough to be marked stale.
pub cache_hit_not_stale :
    (cache : PositionCache) (key : Text) (now_ms : ℕ) (entry : CacheEntry)
    → IsTimed cache
    → cache_get key cache ≡ some entry
    → now_ms < entry.expires_at
    → cached_position cache key now_ms
      ≡ some (record entry.envelope {
        source = from_cache;
        age_seconds = (now_ms - entry.envelope.updated_at) / 1000;
      })
cache_hit_not_stale cache key now_ms entry timed found fresh =
    let expires = IsTimed-get cache key entry timed found in unfold cached_position in ground arith

updated_at-position_of :
    (db : Database) (now_ms : ℕ) (w : WalletBalance) (pending : Bool) (staker : Option NimiqStaker)
    → (position_of db now_ms w pending staker).0.updated_at ≡ now_ms
unfolding position_of
updated_at-position_of db now_ms w pending staker = ground arith

module _ (rpc : PositionRpc) (db : Database) (cache : PositionCache) (o : ReadOptions) where
  record_position-IsTimed :
      (block : Reply NumField) (p : Envelope × Bool)
      → p.0.updated_at ≡ o.now_ms
      → IsTimed cache
      → IsTimed (record_position db cache o block p).2
  unfolding record_position
  record_position-IsTimed block (env, false) e h = h
  record_position-IsTimed block (env, true) e h = elim (Bool-cases o.bypass_cache) [
    | inl b ↦ rw b h
    | inr b ↦ rw b (omega arith, h)
  ]

  after_staker-IsTimed :
      (r : Result (Option NimiqStaker)) → IsTimed cache → IsTimed (after_staker rpc db cache o r).2
  unfolding after_staker
  after_staker-IsTimed (err e) h = h
  after_staker-IsTimed (ok staker) h =
      record_position-IsTimed rpc.get_block _ (updated_at-position_of db o.now_ms _ _ staker) h

  after_lookup-IsTimed :
      (hit : Option Envelope) → IsTimed cache → IsTimed (after_lookup rpc db cache o hit).2
  unfolding after_lookup
  after_lookup-IsTimed (some env) h = h
  after_lookup-IsTimed none h = after_staker-IsTimed _ h

  -- Every read keeps the cache timed: an entry expires one time to live after it was read.
  pub read_staking_position-IsTimed :
      IsTimed cache → IsTimed (read_staking_position rpc db cache o).2
  unfolding read_staking_position
  read_staking_position-IsTimed h = after_lookup-IsTimed (cache_lookup cache o) h

  after_staker-failure :
      (r : Result (Option NimiqStaker)) {e : ApiError}
      → (after_staker rpc db cache o r).0 ≡ err e
      → after_staker rpc db cache o r ≡ (err e, db, cache)
  unfolding after_staker record_position
  after_staker-failure (err e) h = ground arith
  after_staker-failure (ok staker) h = ground arith

  after_lookup-failure :
      (hit : Option Envelope) {e : ApiError}
      → (after_lookup rpc db cache o hit).0 ≡ err e
      → after_lookup rpc db cache o hit ≡ (err e, db, cache)
  unfolding after_lookup
  after_lookup-failure (some env) h = cc
  after_lookup-failure none h = after_staker-failure _ h

  -- A read that fails leaves the tables and the cache as they were.
  pub read_failure_keeps :
      {e : ApiError}
      → (read_staking_position rpc db cache o).0 ≡ err e
      → read_staking_position rpc db cache o ≡ (err e, db, cache)
  unfolding read_staking_position
  read_failure_keeps h = after_lookup-failure (cache_lookup cache o) h

position_of_active :
    (db : Database) (now_ms : ℕ) (w : WalletBalance) (pending : Bool) (staker : Option NimiqStaker)
    → (position_of db now_ms w pending staker).0.state ≡ active
    → (s : NimiqStaker) × (pending ≡ false)
      × (staker ≡ some s)
      × (0 < luna_of s.balance)
      × (luna_of s.retired_balance ≡ 0)
unfolding position_of parse_staker_balances normalize_position_state
position_of_active db now_ms w true none h = absurd (ground arith)
position_of_active db now_ms w false none h = absurd (ground arith)
position_of_active db now_ms w true (some s) h = absurd (ground arith)
position_of_active db now_ms w false (some s) h = (s, refl, refl, ground arith, ground arith)

state-record_position :
    (db : Database) (cache : PositionCache) (o : ReadOptions) (block : Reply NumField)
    (p : Envelope × Bool) (env : Envelope)
    → (record_position db cache o block p).0 ≡ ok env
    → p.0 ≡ env
unfolding record_position
state-record_position db cache o block (e, false) env h = ground arith
state-record_position db cache o block (e, true) env h = ground arith

read_staker-ok :
    (r : Reply NimiqStaker) (s : NimiqStaker) → read_staker r ≡ ok (some s) → r ≡ returned s
unfolding read_staker
read_staker-ok r s h = ground arith

module _ (rpc : PositionRpc) (db : Database) (cache : PositionCache) (o : ReadOptions) where
  after_staker-active :
      (r : Result (Option NimiqStaker)) (env : Envelope)
      → (after_staker rpc db cache o r).0 ≡ ok env
      → env.state ≡ active
      → (s : NimiqStaker) × (pending_tx db o ≡ false)
        × (r ≡ ok (some s))
        × (0 < luna_of s.balance)
        × (luna_of s.retired_balance ≡ 0)
  unfolding after_staker
  after_staker-active (err e) env h shown = absurd (ground arith)
  after_staker-active (ok staker) env h shown =
      let same = state-record_position db cache o rpc.get_block _ env h in
      let (s, idle, e, a, r) =
        position_of_active db o.now_ms _ (pending_tx db o) staker
          (ap (λ (v : Envelope). v.state) same ∙ shown) in
      (s, idle, ap ok e, a, r)

  -- With the cache bypassed a read begins at the staker call.
  pub read_bypass :
      o.bypass_cache ≡ true
      → read_staking_position rpc db cache o
        ≡ after_staker rpc db cache o (read_staker (rpc.get_staker (normalize_address o.address)))
  unfolding read_staking_position after_lookup
  read_bypass bypass =
      let missed : cache_lookup cache o ≡ none = ground arith in
      ap (after_lookup rpc db cache o) missed

  -- A read past the cache shows `active` only if the chain has just returned a staker with active
  -- and no retired stake, and no staking action is pending, as the caller says or, where the caller
  -- says nothing of it, as the table of intents shows.
  pub read_active_sound :
      (env : Envelope)
      → o.bypass_cache ≡ true
      → (read_staking_position rpc db cache o).0 ≡ ok env
      → env.state ≡ active
      → (s : NimiqStaker) × (pending_tx db o ≡ false)
        × (rpc.get_staker (normalize_address o.address) ≡ returned s)
        × (0 < luna_of s.balance)
        × (luna_of s.retired_balance ≡ 0)
  read_active_sound env bypass h shown =
      let reply = rpc.get_staker (normalize_address o.address) in
      let e' =
        sym (ap (λ (t : Result Envelope × Database × PositionCache). t.0) (read_bypass bypass))
        ∙ h in
      let (s, idle, e, a, r) = after_staker-active (read_staker reply) env e' shown in
      (s, idle, read_staker-ok reply s e, a, r)
