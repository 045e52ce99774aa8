-- ===== src/RateLimit.antt =====
-- server/src/rate-limit.ts: a counter for each key that starts again when its window has passed.
pub mod Laws
use steakout.Prelude.{
  ℕ, ◌+◌, ◌-◌, ◌/◌, max, Text, text_eq, Bool, Option, none, some, List, [], ◌∷◌, ltb, leb,
  if◌then◌else◌,
}

pub record Bucket : Type 0 where
  pub count : ℕ
  pub reset_at : ℕ

-- `buckets`, a map; `set` replaces the entry of its key.
abbrev pub Buckets : Type 0
Buckets = List (Text × Bucket)

unfoldable pub get_bucket : Text → Buckets → Option Bucket
get_bucket key [] = none
get_bucket key ((k, b) ∷ rest) = if text_eq k key then some b else get_bucket key rest

unfoldable pub set_bucket : Text → Bucket → Buckets → Buckets
set_bucket key b [] = (key, b) ∷ []
set_bucket key b ((k, old) ∷ rest) =
    if text_eq k key then (k, b) ∷ rest else (k, old) ∷ set_bucket key b rest

-- What the middleware does: it calls `next`, or answers 429 with `Retry-After`.
pub data Decision : Type 0 where
  next : Decision
  rate_limited : ℕ → Decision

-- `Math.max(1, Math.ceil((resetAt - now) / 1000))`, where `now < resetAt`.
unfoldable pub retry_after_seconds : ℕ → ℕ → ℕ
retry_after_seconds reset_at now = max 1 ((reset_at - now + 999) / 1000)

unfoldable pub decide : ℕ → ℕ → ℕ → Option Bucket → Decision × Bucket
unfolding retry_after_seconds
decide limit window_ms now none = (next, record { count = 1; reset_at = now + window_ms })
decide limit window_ms now (some b) =
    if leb b.reset_at now
    then (next, record { count = 1; reset_at = now + window_ms })
    else if leb limit b.count
    then (rate_limited (retry_after_seconds b.reset_at now), b)
    else (next, record b { count = b.count + 1 })

-- A refusal writes its bucket back unchanged.
unfoldable pub rate_limit : ℕ → ℕ → Buckets → Text → ℕ → Decision × Buckets
unfolding decide
rate_limit limit window_ms buckets key now =
    let (decision, b) = decide limit window_ms now (get_bucket key buckets) in
    (decision, set_bucket key b buckets)
