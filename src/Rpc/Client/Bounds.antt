-- ===== src/Rpc/Client/Bounds.antt =====
-- How many requests a call of server/src/nimiq-rpc.ts sends.
use steakout.Prelude.{
  ℕ, zero, suc, ◌+◌, ◌-◌, ◌*◌, ◌≤◌, max, Text, Option, none, some, List, [], ◌∷◌, length, arith,
  Bool-cases, inl, inr,
}
use steakout.Json.{Value}
use steakout.Rpc.Request.{Outcome, good, bad, request_once, backoff_delay_ms}
use steakout.Rpc.Client.{
  Answer, after_attempt, after_endpoint, Endpoint, RpcClient, count_in, one_retry, Net,
  clear_sticky, is_failover_eligible, attempts_from, request_on_endpoint, try_endpoints,
  call_endpoints, sticky_url, order_endpoints, resolve_rpc_endpoints, request_rpc_data,
}
use steakout.Rpc.Client.Order.{order-length, resolve-length}

-- A count of the requests sent, kept by the network.
pub record IsCounted {S : Type 0} (net : Net S) (sent : S → ℕ) : Type 0 where
  pub posts :
      (url method : Text) (params : List Value) (s : S)
      → sent (net.post url method params s).1 ≤ suc (sent s)
  pub sleeps : (delay : ℕ) (s : S) → sent (net.sleep delay s) ≤ sent s
  pub draws : (s : S) → sent (net.random s).1 ≤ sent s

more : (k b before after : ℕ) → after ≤ b + before → k * b + after ≤ suc k * b + before
more k b before after h = omega (arith, h)

enough : (k b before after : ℕ) → after ≤ b + before → after ≤ suc k * b + before
enough k b before after h = omega (arith, h)

within : (a b c n : ℕ) → a ≤ b + n → b ≤ c → a ≤ c + n
within a b c n h g = omega (arith, h, g)

at_most_two : (k b : ℕ) → k ≤ 2 → k * b ≤ 2 * b
at_most_two zero b h = omega arith
at_most_two (suc zero) b h = omega arith
at_most_two (suc (suc zero)) b h = omega arith
at_most_two (suc (suc (suc k))) b h = absurd (omega (arith, h))

le_trans : (a b c : ℕ) → a ≤ b → b ≤ c → a ≤ c
le_trans a b c h g = omega (arith, h, g)

module _ {S : Type 0} (net : Net S) (method : Text) (params : List Value) (sent : S → ℕ)
    (counted : IsCounted net sent) where
  after_attempt-sent :
      (n : ℕ) (client : RpcClient) (s : S) (again : Answer S) (o : Outcome Value)
      → sent s ≤ n
      → sent again.2 ≤ n
      → sent (after_attempt net method params client s again o).2 ≤ n
  unfolding after_attempt
  after_attempt-sent n client s again (good v) h g = h
  after_attempt-sent n client s again (bad e) h g = elim (Bool-cases e.retriable) [
    | inl t ↦ rw t g
    | inr t ↦ rw t h
  ]

  attempts-sent :
      (left attempt : ℕ) (url : Text) (client : RpcClient) (s : S)
      → sent (attempts_from net method params left attempt url client s).2 ≤ suc left + sent s
  unfolding attempts_from
  attempts-sent zero attempt url client s = omega (arith, counted.posts url method params s)
  attempts-sent (suc left) attempt url client s =
      let (fetched, s') = net.post url method params s in
      let (random, s'') = net.random s' in
      let later = net.sleep (backoff_delay_ms net.config random attempt) s'' in
      let again = attempts-sent left (attempt + 1) url (count_in method one_retry client) later in
      after_attempt-sent (suc (suc left) + sent s) client s' _
        (request_once method net.config fetched) (omega (arith, counted.posts url method params s))
        (omega (
          arith,
          again,
          counted.sleeps (backoff_delay_ms net.config random attempt) s'',
          counted.draws s',
          counted.posts url method params s,
        ))

  abbrev budget : ℕ
  budget = max 1 net.config.max_attempts

  on_endpoint-sent :
      (url : Text) (client : RpcClient) (s : S)
      → sent (request_on_endpoint net method params url client s).2 ≤ budget + sent s
  unfolding request_on_endpoint
  on_endpoint-sent url client s = omega (arith, attempts-sent (budget - 1) 1 url client s)

  abbrev IsWithin : ℕ → Option (Answer S) → Type 0
  IsWithin n none = Unit
  IsWithin n (some a) = sent a.2 ≤ n

  after_endpoint-sent :
      (n : ℕ) (started : S) (e : Endpoint) (client : RpcClient) (s : S) (hopped : Option (Answer S))
      (o : Outcome Value)
      → sent s ≤ n
      → IsWithin n hopped
      → sent (after_endpoint net method params started e client s hopped o).2 ≤ n
  unfolding after_endpoint
  after_endpoint-sent n started e client s hopped (good v) h g = h
  after_endpoint-sent n started e client s none (bad error) h g = h
  after_endpoint-sent n started e client s (some hopped) (bad error) h g =
      elim (Bool-cases (is_failover_eligible error)) [ inl t ↦ rw t g | inr t ↦ rw t h ]

  try-sent :
      (started : S) (e : Endpoint) (later : List Endpoint) (client : RpcClient) (s : S)
      → sent (try_endpoints net method params started e later client s).2
        ≤ suc (length later) * budget + sent s
  unfolding try_endpoints
  try-sent started e [] client s =
      let (outcome, client', s') = request_on_endpoint net method params e.url client s in
      after_endpoint-sent (1 * budget + sent s) started e client' s' none outcome
        (enough 0 budget (sent s) (sent s') (on_endpoint-sent e.url client s)) tt
  try-sent started e (next ∷ later) client s =
      let (outcome, client', s') = request_on_endpoint net method params e.url client s in
      let tried = on_endpoint-sent e.url client s in
      let rest =
        try-sent started next later (count_in method one_retry (clear_sticky e client')) s' in
      after_endpoint-sent (suc (suc (length later)) * budget + sent s) started e client' s' (some _)
        outcome (enough (suc (length later)) budget (sent s) (sent s') tried)
        (le_trans _ _ _ rest (more (suc (length later)) budget (sent s) (sent s') tried))

  calls-sent :
      (endpoints : List Endpoint) (client : RpcClient) (s : S)
      → sent (call_endpoints net method params endpoints client s).2
        ≤ length endpoints * budget + sent s
  unfolding call_endpoints
  calls-sent [] client s = omega arith
  calls-sent (e ∷ later) client s = try-sent s e later _ s

  -- A call sends at most two endpoints as many requests each as attempts are allowed, one at the
  -- least, whatever the network does: the loops over attempts and endpoints end. The
  -- requests are counted by any measure of the network that a `fetch` raises by at most one and that
  -- waiting and drawing a random number do not raise.
  pub request-sent :
      (env_primary env_fallback rpc_url : Option Text) (client : RpcClient) (s : S)
      → sent (request_rpc_data net method params env_primary env_fallback rpc_url client s).2
        ≤ 2 * max 1 net.config.max_attempts + sent s
  unfolding request_rpc_data
  request-sent env_primary env_fallback rpc_url client s =
      let resolved = resolve_rpc_endpoints env_primary env_fallback rpc_url in
      let ordered = order_endpoints (sticky_url client) resolved in
      let few : length ordered ≤ 2 =
        rw (order-length (sticky_url client) resolved)
          (resolve-length env_primary env_fallback rpc_url) in
      within _ _ _ (sent s) (calls-sent ordered client s) (at_most_two (length ordered) budget few)
