-- ===== src/RateLimit/Laws.antt =====
-- The limiter of server/src/rate-limit.ts over the requests of one key and of several.
use steakout.Prelude.{
  ℕ, ◌+◌, ◌-◌, ◌*◌, ◌≤◌, ◌<◌, ◌≡◌, ◌≢◌, refl, ◌∙◌, Text, text_eq, text_eq_iff, text_eq_refl, false,
  none, some, List, [], ◌∷◌, arith, if◌then◌else◌, leb, All, Bool-cases, inl, inr, leb→le,
}
use steakout.RateLimit.{
  Bucket, Buckets, get_bucket, set_bucket, Decision, next, rate_limited, retry_after_seconds,
  rate_limit,
}

get-set :
    (key j : Text) (b : Bucket) (buckets : Buckets)
    → get_bucket j (set_bucket key b buckets)
      ≡ (if text_eq key j then some b else get_bucket j buckets)
unfolding get_bucket set_bucket
get-set key j b [] = refl
get-set key j b ((k, old) ∷ rest) =
    ground (arith, get-set key j b rest, text_eq_iff k key, text_eq_iff k j, text_eq_iff key j)

-- A request leaves the buckets of all other keys as they were.
pub other_keys_untouched :
    (limit window_ms now : ℕ) (buckets : Buckets) (key j : Text)
    → key ≢ j
    → get_bucket j (rate_limit limit window_ms buckets key now).1 ≡ get_bucket j buckets
unfolding rate_limit
other_keys_untouched limit window_ms now buckets key j h =
    get-set key j _ buckets ∙ ground (arith, text_eq_iff key j)

-- Who waits as long as the answer says, and sends nothing meanwhile, is let through.
pub wait_is_enough :
    (limit window_ms now later seconds : ℕ) (buckets : Buckets) (key : Text)
    → (rate_limit limit window_ms buckets key now).0 ≡ rate_limited seconds
    → now + 1000 * seconds ≤ later
    → (rate_limit limit window_ms (rate_limit limit window_ms buckets key now).1 key later).0 ≡ next
unfolding rate_limit retry_after_seconds
wait_is_enough limit window_ms now later seconds buckets key h w =
    rw (get-set key key, text_eq_refl key) (ground (arith, get_bucket key buckets))

-- The decisions on a sequence of requests of one key, and how many were let through.
abbrev pub passed : Decision → ℕ
passed next = 1
passed (rate_limited s) = 0

abbrev pub admitted : ℕ → ℕ → Buckets → Text → List ℕ → ℕ
admitted limit window_ms buckets key [] = 0
admitted limit window_ms buckets key (t ∷ ts) =
    passed (rate_limit limit window_ms buckets key t).0
    + admitted limit window_ms (rate_limit limit window_ms buckets key t).1 key ts

get-set_same :
    (key : Text) (b : Bucket) (buckets : Buckets)
    → get_bucket key (set_bucket key b buckets) ≡ some b
get-set_same key b buckets = get-set key key b buckets ∙ rw (text_eq_refl key) refl

-- A request in a bucket whose window has not passed.
step_full :
    (limit window_ms : ℕ) (buckets : Buckets) (key : Text) (b : Bucket) (t : ℕ)
    → get_bucket key buckets ≡ some b
    → t < b.reset_at
    → limit ≤ b.count
    → (passed (rate_limit limit window_ms buckets key t).0 ≡ 0)
      × (get_bucket key (rate_limit limit window_ms buckets key t).1 ≡ some b)
unfolding rate_limit
step_full limit window_ms buckets key b t g p full =
    rw (g, get-set_same key) (ground arith, ground arith)

step_free :
    (limit window_ms : ℕ) (buckets : Buckets) (key : Text) (b : Bucket) (t : ℕ)
    → get_bucket key buckets ≡ some b
    → t < b.reset_at
    → b.count < limit
    → (passed (rate_limit limit window_ms buckets key t).0 ≡ 1)
      × (get_bucket key (rate_limit limit window_ms buckets key t).1
          ≡ some (record b { count = b.count + 1 }))
unfolding rate_limit
step_free limit window_ms buckets key b t g p free =
    rw (g, get-set_same key) (ground arith, ground arith)

lt_of_not : (limit n : ℕ) → leb limit n ≡ false → n < limit
lt_of_not limit n h = ground arith

admitted-open :
    (limit window_ms : ℕ) (buckets : Buckets) (key : Text) (b : Bucket) (ts : List ℕ)
    → get_bucket key buckets ≡ some b
    → All (λ t. t < b.reset_at) ts
    → admitted limit window_ms buckets key ts ≤ limit - b.count
admitted-open limit window_ms buckets key b [] g h = omega arith
admitted-open limit window_ms buckets key b (t ∷ ts) g (p, h) =
    elim (Bool-cases (leb limit b.count)) [
      | inl full ↦
          let (zero_more, kept) =
            step_full limit window_ms buckets key b t g p (leb→le limit b.count full) in
          omega (
            arith,
            zero_more,
            admitted-open limit window_ms (rate_limit limit window_ms buckets key t).1 key b ts kept
                h,
          )
      | inr free ↦
          let (one_more, kept) =
            step_free limit window_ms buckets key b t g p (lt_of_not limit b.count free) in
          omega (
            arith,
            one_more,
            lt_of_not limit b.count free,
            admitted-open limit window_ms (rate_limit limit window_ms buckets key t).1 key
                (record b { count = b.count + 1 }) ts kept h,
          )
    ]

step_first :
    (limit window_ms now : ℕ) (buckets : Buckets) (key : Text)
    → get_bucket key buckets ≡ none
    → (passed (rate_limit limit window_ms buckets key now).0 ≡ 1)
      × (get_bucket key (rate_limit limit window_ms buckets key now).1
          ≡ some (record { count = 1; reset_at = now + window_ms }))
unfolding rate_limit
step_first limit window_ms now buckets key g = rw (g, get-set_same key) (refl, refl)

-- In a window that begins with a client's first request no more than the limit are let through, if
-- the limit is not zero.
pub admitted-le_limit :
    (limit window_ms now : ℕ) (buckets : Buckets) (key : Text) (ts : List ℕ)
    → get_bucket key buckets ≡ none
    → 1 ≤ limit
    → All (λ t. t < now + window_ms) ts
    → admitted limit window_ms buckets key (now ∷ ts) ≤ limit
admitted-le_limit limit window_ms now buckets key ts g l h =
    let (one_more, opened) = step_first limit window_ms now buckets key g in
    omega (arith, l, one_more, admitted-open limit window_ms _ key _ ts opened h)
