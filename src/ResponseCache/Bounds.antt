-- ===== src/ResponseCache/Bounds.antt =====
-- How large the cache of server/src/responseCache.ts becomes, and how old its bodies are.
use steakout.Prelude.{
  ℕ, suc, ◌+◌, ◌-◌, ◌/◌, ◌≤◌, ◌≡◌, refl, sym, ap, ◌∙◌, Text, text_eq_refl, Bool, true, not, [], ◌∷◌,
  ◌++◌, all, leb→le, filter, take, drop, take-append-drop, filter-append, length-drop, length, leb,
  ltb, arith, Bool-cases, inl, inr,
}
use steakout.Json.{Value}
use steakout.Payouts.Order.{insert, sort}
use steakout.ResponseCache.{
  Store, CacheEntry, ResponseCache, CacheOptions, max_entries, set_entry, evict_expired,
  expires_leb, has_key, drop_half, bound_store, set_cached_public_response,
}

length-filter : (p : Text × CacheEntry → Bool) (xs : Store) → length (filter p xs) ≤ length xs
length-filter p [] = omega arith
length-filter p (x ∷ xs) = ground (arith, length-filter p xs)

filter-insert :
    (p : Text × CacheEntry → Bool) (x : Text × CacheEntry) (xs : Store)
    → length (filter p (insert expires_leb x xs)) ≡ length (filter p (x ∷ xs))
unfolding insert
filter-insert p x [] = refl
filter-insert p x (y ∷ ys) = elim (Bool-cases (expires_leb x y)) [
  | inl e ↦ rw e refl
  | inr e ↦ rw e (ground (arith, filter-insert p x ys))
]

-- Sorting neither adds nor drops an entry.
filter-sort :
    (p : Text × CacheEntry → Bool) (xs : Store)
    → length (filter p (sort expires_leb xs)) ≡ length (filter p xs)
unfolding sort
filter-sort p [] = refl
filter-sort p (x ∷ xs) = filter-insert p x (sort expires_leb xs) ∙ ground (arith, filter-sort p xs)

length-insert :
    (x : Text × CacheEntry) (xs : Store) → length (insert expires_leb x xs) ≡ suc (length xs)
unfolding insert
length-insert x [] = refl
length-insert x (y ∷ ys) = elim (Bool-cases (expires_leb x y)) [
  | inl e ↦ rw e refl
  | inr e ↦ rw e (ap suc (length-insert x ys))
]

length-sort : (xs : Store) → length (sort expires_leb xs) ≡ length xs
unfolding sort
length-sort [] = refl
length-sort (x ∷ xs) = length-insert x (sort expires_leb xs) ∙ ap suc (length-sort xs)

more_dropped :
    (x : Text × CacheEntry) (d xs : Store)
    → all (has_key d) xs ≡ true
    → all (has_key (x ∷ d)) xs ≡ true
more_dropped x d [] h = refl
more_dropped x d (y ∷ ys) h = ground (arith, more_dropped x d ys)

self_dropped : (d : Store) → all (has_key d) d ≡ true
self_dropped [] = refl
self_dropped (x ∷ xs) = rw (text_eq_refl x.0, more_dropped x xs xs (self_dropped xs)) refl

filter-dropped :
    (d xs : Store) → all (has_key d) xs ≡ true → filter (λ kv. not (has_key d kv)) xs ≡ []
filter-dropped d [] h = refl
filter-dropped d (x ∷ xs) h = ground (arith, filter-dropped d xs)

half-length :
    (d : ℕ) (store : Store)
    → length (filter (λ kv. not (has_key (take d (sort expires_leb store)) kv)) store)
      ≤ length store - d
half-length d store =
    let sorted = sort expires_leb store in
    let kept : Text × CacheEntry → Bool = λ kv. not (has_key (take d sorted) kv) in
    let same : length (filter kept store) ≡ length (filter kept (drop d sorted)) =
      sym (filter-sort kept store)
      ∙ ap (λ xs. length (filter kept xs)) (sym (take-append-drop d sorted))
      ∙ ap length (filter-append kept (take d sorted) (drop d sorted))
      ∙ ap (λ xs. length (xs ++ filter kept (drop d sorted)))
          (filter-dropped (take d sorted) (take d sorted) (self_dropped (take d sorted))) in
    omega (arith, same, length-filter kept (drop d sorted), length-drop d sorted, length-sort store)

length-set :
    (key : Text) (e : CacheEntry) (xs : Store) → length (set_entry key e xs) ≤ suc (length xs)
unfolding set_entry
length-set key e [] = omega arith
length-set key e ((k, old) ∷ xs) = ground (arith, length-set key e xs)

drop_half-length : (store : Store) → length store ≤ 501 → length (drop_half store) ≤ 500
unfolding drop_half
drop_half-length store h = omega (arith, h, half-length ((length store + 1) / 2) store)

bound-length :
    (now_ms : ℕ) (store : Store) → length store ≤ 501 → length (bound_store now_ms store) ≤ 500
unfolding bound_store evict_expired
bound-length now_ms store h = elim (Bool-cases (leb (length store) 500)) [
  | inl small ↦ rw small (leb→le _ _ small)
  | inr large ↦ elim (Bool-cases (leb (length (evict_expired now_ms store)) 500)) [
    | inl small ↦ rw (large, small) (leb→le _ _ small)
    | inr more ↦
        rw (large, more) (drop_half-length (evict_expired now_ms store) (evicted now_ms store h))
  ]
]
  where
    evicted :
        (now_ms : ℕ) (store : Store)
        → length store ≤ 501
        → length (evict_expired now_ms store) ≤ 501
    evicted now_ms store h =
        omega (arith, h, length-filter (λ kv. ltb now_ms kv.1.stale_until) store)

-- The cache holds at most five hundred responses: storing one more keeps this bound.
pub set-length :
    (key : Text) (body : Value) (options : CacheOptions) (now_ms : ℕ) (cache : ResponseCache)
    → length cache.store ≤ max_entries
    → length (set_cached_public_response key body options now_ms cache).store ≤ max_entries
unfolding set_cached_public_response
set-length key body options now_ms cache h =
    let entry : CacheEntry = record {
      body = body;
      status = options.status;
      expires_at = now_ms + options.ttl;
      stale_until = now_ms + options.ttl + options.stale_for;
      watermark = options.watermark;
    } in
    bound-length now_ms (set_entry key entry cache.store)
      (omega (arith, h, length-set key entry cache.store))
