-- ===== src/Rpc/Client/Balance.antt =====
-- The metrics of server/src/nimiq-rpc.ts, and what every call keeps of them.
use steakout.Prelude.{
  ℕ, zero, suc, ◌+◌, ◌≡◌, Text, Option, none, some, List, [], ◌∷◌, arith, Bool-cases, inl, inr,
}
use steakout.Json.{Value}
use steakout.Rpc.Request.{RpcError, Outcome, good, bad, request_once, backoff_delay_ms}
use steakout.Rpc.Client.{
  Answer, after_attempt, after_endpoint, Endpoint, RpcClient, count_in, one_retry, one_call, Net,
  clear_sticky, is_url, sticky_url, is_failover_eligible, attempts_from, request_on_endpoint,
  record_success, record_failure, try_endpoints, call_endpoints, request_rpc_data,
}

-- Calls, but for some that are still open, are successes or errors.
unfoldable pub IsBalanced : ℕ → RpcClient → Type 0
IsBalanced open_calls client =
    client.total.calls ≡ open_calls + (client.total.successes + client.total.errors)

abbrev AllBalanced : {S : Type 0} → Option (Answer S) → Type 0
AllBalanced none = Unit
AllBalanced (some a) = IsBalanced 0 a.1

module _ {S : Type 0} (net : Net S) (method : Text) (params : List Value) where
  after_attempt-IsBalanced :
      (k : ℕ) (client : RpcClient) (s : S) (again : Answer S) (o : Outcome Value)
      → IsBalanced k client
      → IsBalanced k again.1
      → IsBalanced k (after_attempt net method params client s again o).1
  unfolding after_attempt
  after_attempt-IsBalanced k client s again (good v) h g = h
  after_attempt-IsBalanced k client s again (bad e) h g = elim (Bool-cases e.retriable) [
    | inl t ↦ rw t g
    | inr t ↦ rw t h
  ]

  attempts-IsBalanced :
      (k left attempt : ℕ) (url : Text) (client : RpcClient) (s : S)
      → IsBalanced k client
      → IsBalanced k (attempts_from net method params left attempt url client s).1
  unfolding IsBalanced attempts_from count_in
  attempts-IsBalanced k zero attempt url client s h = h
  attempts-IsBalanced k (suc left) attempt url client s h =
      let (fetched, s') = net.post url method params s in
      let (random, s'') = net.random s' in
      after_attempt-IsBalanced k client s' _ (request_once method net.config fetched) h (
        attempts-IsBalanced k left (attempt + 1) url (count_in method one_retry client)
          (net.sleep (backoff_delay_ms net.config random attempt) s'') h)

  clear-IsBalanced :
      (k : ℕ) (e : Endpoint) (client : RpcClient)
      → IsBalanced k client
      → IsBalanced k (clear_sticky e client)
  unfolding IsBalanced clear_sticky
  clear-IsBalanced k e client h = elim (Bool-cases (is_url e.url (sticky_url client))) [
    | inl t ↦ rw t h
    | inr t ↦ rw t h
  ]

  success-IsBalanced :
      (started : S) (e : Endpoint) (client : RpcClient) (s : S)
      → IsBalanced 1 client
      → IsBalanced 0 (record_success net method params started e client s)
  unfolding IsBalanced record_success count_in
  success-IsBalanced started e client s h = omega (arith, h)

  failure-IsBalanced :
      (started : S) (e : RpcError) (client : RpcClient) (s : S)
      → IsBalanced 1 client
      → IsBalanced 0 (record_failure net method params started e client s)
  unfolding IsBalanced record_failure count_in
  failure-IsBalanced started e client s h = omega (arith, h)

  on_endpoint-IsBalanced :
      (url : Text) (client : RpcClient) (s : S)
      → IsBalanced 1 client
      → IsBalanced 1 (request_on_endpoint net method params url client s).1
  unfolding request_on_endpoint
  on_endpoint-IsBalanced url client s h = attempts-IsBalanced 1 _ 1 url client s h

  after_endpoint-IsBalanced :
      (started : S) (e : Endpoint) (client : RpcClient) (s : S) (hopped : Option (Answer S))
      (o : Outcome Value)
      → IsBalanced 1 client
      → AllBalanced hopped
      → IsBalanced 0 (after_endpoint net method params started e client s hopped o).1
  unfolding after_endpoint
  after_endpoint-IsBalanced started e client s hopped (good v) h g =
      success-IsBalanced started e client s h
  after_endpoint-IsBalanced started e client s none (bad error) h g =
      failure-IsBalanced started error (clear_sticky e client) s (clear-IsBalanced 1 e client h)
  after_endpoint-IsBalanced started e client s (some hopped) (bad error) h g =
      elim (Bool-cases (is_failover_eligible error)) [
        | inl t ↦ rw t g
        | inr t ↦ rw t (
            failure-IsBalanced started error (clear_sticky e client) s
              (clear-IsBalanced 1 e client h))
      ]

  retry-IsBalanced :
      (client : RpcClient) → IsBalanced 1 client → IsBalanced 1 (count_in method one_retry client)
  unfolding IsBalanced count_in
  retry-IsBalanced client h = h

  try-IsBalanced :
      (started : S) (e : Endpoint) (later : List Endpoint) (client : RpcClient) (s : S)
      → IsBalanced 1 client
      → IsBalanced 0 (try_endpoints net method params started e later client s).1
  unfolding try_endpoints
  try-IsBalanced started e [] client s h =
      let (outcome, client', s') = request_on_endpoint net method params e.url client s in
      after_endpoint-IsBalanced started e client' s' none outcome
        (on_endpoint-IsBalanced e.url client s h) tt
  try-IsBalanced started e (next ∷ later) client s h =
      let (outcome, client', s') = request_on_endpoint net method params e.url client s in
      let tried = on_endpoint-IsBalanced e.url client s h in
      after_endpoint-IsBalanced started e client' s' (some _) outcome tried (
        try-IsBalanced started next later (count_in method one_retry (clear_sticky e client')) s'
          (retry-IsBalanced (clear_sticky e client') (clear-IsBalanced 1 e client' tried)))

  opened :
      (client : RpcClient) (s : S)
      → IsBalanced 0 client
      → IsBalanced 1 (record (count_in method one_call client) { last_call_at = some (net.now s) })
  unfolding IsBalanced count_in
  opened client s h = omega (arith, h)

  calls-IsBalanced :
      (endpoints : List Endpoint) (client : RpcClient) (s : S)
      → IsBalanced 0 client
      → IsBalanced 0 (call_endpoints net method params endpoints client s).1
  unfolding call_endpoints
  calls-IsBalanced [] client s h = h
  calls-IsBalanced (e ∷ later) client s h = try-IsBalanced s e later _ s (opened client s h)

  -- The metrics add up: if every call so far is counted as a success or as an error, and as one of
  -- them only, then this also holds after another call, whatever the network does.
  pub request-IsBalanced :
      (env_primary env_fallback rpc_url : Option Text) (client : RpcClient) (s : S)
      → IsBalanced 0 client
      → IsBalanced 0
          (request_rpc_data net method params env_primary env_fallback rpc_url client s).1
  unfolding request_rpc_data
  request-IsBalanced env_primary env_fallback rpc_url client s h = calls-IsBalanced _ client s h
