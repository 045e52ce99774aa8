-- ===== src/ResponseCache.antt =====
-- server/src/responseCache.ts: the cache of public responses, with its fresh and its stale time. The
-- store is a list in the order of a Map. Keys are given: they are made by URLSearchParams.
pub mod Bounds
use steakout.Prelude.{
  ℕ, suc, ◌+◌, ◌*◌, ◌/◌, Text, text, text_eq, Bool, true, false, not, ◌&&◌, Option, none, some,
  List, [], ◌∷◌, any, filter, take, length, leb, ltb, if◌then◌else◌,
}
use steakout.Json.{Value, string, object, Fields, field, end, get_field}
use steakout.Payouts.Order.{sort}

abbrev pub ttl_ms : ℕ
ttl_ms = 45000

abbrev pub default_stale_ms : ℕ
default_stale_ms = 60 * 60000

abbrev pub max_entries : ℕ
max_entries = 500

pub record CacheEntry : Type 0 where
  pub body : Value
  pub status : ℕ
  pub expires_at : ℕ
  pub stale_until : ℕ
  pub watermark : Option Text

abbrev pub Store : Type 0
Store = List (Text × CacheEntry)

pub record ResponseCache : Type 0 where
  pub store : Store
  pub hits : ℕ
  pub misses : ℕ
  pub stale_serves : ℕ

pub data PublicCacheLookup : Type 0 where
  fresh stale : CacheEntry → PublicCacheLookup
  miss : PublicCacheLookup

unfoldable pub get_entry : Text → Store → Option CacheEntry
get_entry key [] = none
get_entry key ((k, e) ∷ rest) = if text_eq k key then some e else get_entry key rest

unfoldable pub delete_entry : Text → Store → Store
delete_entry key store = filter (λ (kv : Text × CacheEntry). not (text_eq kv.0 key)) store

unfoldable pub judge_entry :
    Text → ℕ → ResponseCache → Option CacheEntry → PublicCacheLookup × ResponseCache
unfolding delete_entry
judge_entry key now_ms cache none = (miss, record cache { misses = cache.misses + 1 })
judge_entry key now_ms cache (some e) =
    if ltb now_ms e.expires_at
    then (fresh e, record cache { hits = cache.hits + 1 })
    else if ltb now_ms e.stale_until
    then (stale e, record cache { stale_serves = cache.stale_serves + 1 })
    else (miss, record cache { store = delete_entry key cache.store; misses = cache.misses + 1 })

unfoldable pub lookup_public_response : Text → ℕ → ResponseCache → PublicCacheLookup × ResponseCache
unfolding judge_entry get_entry
lookup_public_response key now_ms cache = judge_entry key now_ms cache (get_entry key cache.store)

-- A stale entry counts as a miss too.
unfoldable pub fresh_only : PublicCacheLookup × ResponseCache → Option CacheEntry × ResponseCache
fresh_only (fresh e, cache) = (some e, cache)
fresh_only (stale e, cache) = (none, record cache { misses = cache.misses + 1 })
fresh_only (miss, cache) = (none, cache)

unfoldable pub get_cached_public_response :
    Text → ℕ → ResponseCache → Option CacheEntry × ResponseCache
unfolding fresh_only lookup_public_response
get_cached_public_response key now_ms cache = fresh_only (lookup_public_response key now_ms cache)

-- `store.set`: an entry that is there keeps its place.
unfoldable pub set_entry : Text → CacheEntry → Store → Store
set_entry key e [] = (key, e) ∷ []
set_entry key e ((k, old) ∷ rest) =
    let later = (k, old) ∷ set_entry key e rest in if text_eq k key then (k, e) ∷ rest else later

unfoldable pub evict_expired : ℕ → Store → Store
evict_expired now_ms store = filter (λ (kv : Text × CacheEntry). ltb now_ms kv.1.stale_until) store

abbrev pub expires_leb : Text × CacheEntry → Text × CacheEntry → Bool
expires_leb a b = leb a.1.expires_at b.1.expires_at

abbrev pub has_key : Store → Text × CacheEntry → Bool
has_key dropped kv = any (λ (d : Text × CacheEntry). text_eq d.0 kv.0) dropped

-- The half that expires first goes, rounded up.
unfoldable pub drop_half : Store → Store
drop_half store =
    let dropped = take ((length store + 1) / 2) (sort expires_leb store) in
    filter (λ kv. not (has_key dropped kv)) store

unfoldable pub bound_store : ℕ → Store → Store
unfolding evict_expired drop_half
bound_store now_ms store =
    let kept = evict_expired now_ms store in
    let halved = drop_half kept in
    if leb (length store) max_entries
    then store
    else if leb (length kept) max_entries
    then kept
    else halved

pub record CacheOptions : Type 0 where
  pub status : ℕ
  pub watermark : Option Text
  pub ttl : ℕ
  pub stale_for : ℕ

abbrev pub default_options : CacheOptions
default_options = record {
  status = 200;
  watermark = none;
  ttl = ttl_ms;
  stale_for = default_stale_ms;
}

unfoldable pub set_cached_public_response :
    Text → Value → CacheOptions → ℕ → ResponseCache → ResponseCache
unfolding bound_store set_entry
set_cached_public_response key body options now_ms cache =
    let entry : CacheEntry = record {
      body = body;
      status = options.status;
      expires_at = now_ms + options.ttl;
      stale_until = now_ms + options.ttl + options.stale_for;
      watermark = options.watermark;
    } in
    record cache { store = bound_store now_ms (set_entry key entry cache.store) }

-- `record.status === 'ok'`
abbrev pub is_status_ok : Value → Bool
is_status_ok (string t) = text_eq t (text "ok")
is_status_ok _ = false

unfoldable pub set_field : Text → Value → Fields → Fields
set_field key v end = field key v end
set_field key v (field k old rest) =
    let later = field k old (set_field key v rest) in
    if text_eq k key then field k v rest else later

unfoldable pub mark_envelope_stale_for_serve : Value → Value
unfolding set_field get_field
mark_envelope_stale_for_serve (object f) =
    if is_status_ok (get_field (text "status") f)
    then object (set_field (text "status") (string (text "stale")) f)
    else object f
mark_envelope_stale_for_serve v = v
