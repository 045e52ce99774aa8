-- ===== src/Rpc/Client.antt =====
-- The calls of server/src/nimiq-rpc.ts: endpoints, retries, failover, the sticky endpoint and the
-- metrics. Calls are made one at a time. The network, the clocks and `Math.random` are a record of
-- functions on a state of their own.
pub mod Order
pub mod Replies
pub mod Sticky
pub mod Bounds
pub mod Balance
use steakout.Prelude.{
  ℕ, zero, suc, ◌+◌, ◌-◌, max, Text, text, text_eq, trim, is_empty, Bool, true, false, not, ◌&&◌,
  ◌||◌, Option, none, some, List, [], ◌∷◌, ◌++◌, if◌then◌else◌,
}
use steakout.Json.{Value}
use steakout.Rpc.{RpcErrorCode, unavailable, malformed, method_error}
use steakout.Rpc.Request.{
  RpcError, Outcome, good, bad, Fetched, ClientConfig, request_once, backoff_delay_ms,
}

pub data Source : Type 0 where
  primary fallback : Source

pub record Endpoint : Type 0 where
  pub url : Text
  pub source : Source

-- `process.env.X?.trim() || null`
abbrev pub configured : Option Text → Option Text
configured none = none
configured (some t) = if is_empty (trim t) then none else some (trim t)

abbrev pub is_url : Text → Option Text → Bool
is_url t none = false
is_url t (some u) = text_eq t u

-- The primary endpoint, and the fallback if it is another one.
unfoldable pub with_fallback : Option Text → Option Text → List Endpoint
with_fallback none none = []
with_fallback none (some f) = record { url = f; source = fallback } ∷ []
with_fallback (some p) none = record { url = p; source = primary } ∷ []
with_fallback (some p) (some f) =
    if text_eq f p
    then record { url = p; source = primary } ∷ []
    else record { url = p; source = primary } ∷ record { url = f; source = fallback } ∷ []

-- The two variables of the environment, and the URL of the call; an empty one counts as none.
unfoldable pub resolve_rpc_endpoints : Option Text → Option Text → Option Text → List Endpoint
unfolding with_fallback
resolve_rpc_endpoints env_primary env_fallback none =
    with_fallback (configured env_primary) (configured env_fallback)
resolve_rpc_endpoints env_primary env_fallback (some rpc_url) =
    let p = configured env_primary in
    let f = configured env_fallback in
    if is_empty rpc_url
    then with_fallback p f
    else if is_url (trim rpc_url) p
    then with_fallback p f
    else if is_url (trim rpc_url) f
    then record { url = trim rpc_url; source = fallback } ∷ []
    else record { url = trim rpc_url; source = primary } ∷ []

-- The first endpoint of that URL, and the others in their order.
unfoldable pub take_url : Text → List Endpoint → Option (Endpoint × List Endpoint)
take_url url [] = none
take_url url (e ∷ es) =
    let later = take_url url es in
    if text_eq e.url url
    then some (e, es)
    else elim later [ none ↦ none | some (preferred, others) ↦ some (preferred, e ∷ others) ]

-- The list stays as it is where the endpoint is its first, or not in it.
unfoldable pub order_endpoints : Option Text → List Endpoint → List Endpoint
unfolding take_url
order_endpoints none endpoints = endpoints
order_endpoints (some sticky) endpoints =
    let taken : List Endpoint = elim (take_url sticky endpoints) [
      | none ↦ endpoints
      | some (preferred, others) ↦ preferred ∷ others
    ] in
    if is_empty sticky then endpoints else taken

pub record Counts : Type 0 where
  pub calls : ℕ
  pub successes : ℕ
  pub errors : ℕ
  pub retries : ℕ
  pub total_latency_ms : ℕ

abbrev pub no_counts : Counts
no_counts = record { calls = 0; successes = 0; errors = 0; retries = 0; total_latency_ms = 0 }

-- The variables of the module. An absent method counts as one with no counts.
pub record RpcClient : Type 0 where
  pub total : Counts
  pub by_method : List (Text × Counts)
  pub last_call_at : Option ℕ
  pub last_error_at : Option ℕ
  pub last_error_message : Option Text
  pub sticky : Option Endpoint
  pub last_success_at : Option ℕ

unfoldable pub update_method :
    Text → (Counts → Counts) → List (Text × Counts) → List (Text × Counts)
update_method method f [] = (method, f no_counts) ∷ []
update_method method f ((m, c) ∷ rest) =
    let later = (m, c) ∷ update_method method f rest in
    if text_eq m method then (m, f c) ∷ rest else later

-- A count in both metrics.
unfoldable pub count_in : Text → (Counts → Counts) → RpcClient → RpcClient
unfolding update_method
count_in method f client = record client {
  total = f client.total;
  by_method = update_method method f client.by_method;
}

abbrev pub one_call : Counts → Counts
one_call c = record c { calls = c.calls + 1 }

abbrev pub one_retry : Counts → Counts
one_retry c = record c { retries = c.retries + 1 }

abbrev pub one_success : ℕ → Counts → Counts
one_success latency c = record c {
  successes = c.successes + 1;
  total_latency_ms = c.total_latency_ms + latency;
}

abbrev pub one_error : ℕ → Counts → Counts
one_error latency c = record c {
  errors = c.errors + 1;
  total_latency_ms = c.total_latency_ms + latency;
}

pub record Net (S : Type 0) : Type 0 where
  pub config : ClientConfig
  pub post : Text → Text → List Value → S → Fetched × S
  pub sleep : ℕ → S → S
  pub random : S → ℕ × S
  pub now : S → ℕ
  -- `Math.round(performance.now() - startedAt)`
  pub latency : S → S → ℕ

-- `isFailoverEligible`
abbrev pub is_reached : RpcErrorCode → Bool
is_reached method_error = true
is_reached malformed = true
is_reached unavailable = false

abbrev pub is_unavailable : RpcErrorCode → Bool
is_unavailable unavailable = true
is_unavailable _ = false

unfoldable pub is_failover_eligible : RpcError → Bool
is_failover_eligible e = not (is_reached e.code) && (is_unavailable e.code || e.retriable)

abbrev pub sticky_url : RpcClient → Option Text
sticky_url client = elim client.sticky [ none ↦ none | some e ↦ some e.url ]

-- `if (stickyUrl === endpoint.url)` both sticky variables are cleared.
unfoldable pub clear_sticky : Endpoint → RpcClient → RpcClient
clear_sticky e client =
    if is_url e.url (sticky_url client) then record client { sticky = none } else client

abbrev pub not_configured : RpcError
not_configured = record {
  code = unavailable;
  retriable = false;
  http_status = none;
  message = text "NIMIQ_RPC_URL is not configured";
}

-- What a call leaves: its outcome, the client and the network.
abbrev pub Answer : Type 0 → Type 0
Answer S = Outcome Value × RpcClient × S

module _ {S : Type 0} (net : Net S) (method : Text) (params : List Value) where
  -- What an attempt leads to, given what the next one would.
  unfoldable pub after_attempt : RpcClient → S → Answer S → Outcome Value → Answer S
  after_attempt client s again (good value) = (good value, client, s)
  after_attempt client s again (bad e) = if e.retriable then again else (bad e, client, s)

  -- The loop of requestOnEndpointWithRetries from an attempt on. The first number is the attempts
  -- left after this one, so the loop ends by itself.
  unfoldable pub attempts_from : ℕ → ℕ → Text → RpcClient → S → Answer S
  unfolding request_once count_in after_attempt
  attempts_from zero attempt url client s =
      let (fetched, s') = net.post url method params s in
      (request_once method net.config fetched, client, s')
  attempts_from (suc left) attempt url client s =
      let (fetched, s') = net.post url method params s in
      let (random, s'') = net.random s' in
      let again =
        attempts_from left (attempt + 1) url (count_in method one_retry client)
          (net.sleep (backoff_delay_ms net.config random attempt) s'') in
      after_attempt client s' again (request_once method net.config fetched)

  unfoldable pub request_on_endpoint : Text → RpcClient → S → Answer S
  unfolding attempts_from
  request_on_endpoint url client s =
      attempts_from (max 1 net.config.max_attempts - 1) 1 url client s

  unfoldable pub record_success : S → Endpoint → RpcClient → S → RpcClient
  unfolding count_in
  record_success started e client s =
      let counted = count_in method (one_success (net.latency started s)) client in
      record counted { sticky = some e; last_success_at = some (net.now s) }

  unfoldable pub record_failure : S → RpcError → RpcClient → S → RpcClient
  unfolding count_in
  record_failure started e client s =
      let counted = count_in method (one_error (net.latency started s)) client in
      record counted { last_error_at = some (net.now s); last_error_message = some e.message }

  -- What the outcome at an endpoint leads to, given what the endpoints after it would, if any.
  unfoldable pub after_endpoint :
      S → Endpoint → RpcClient → S → Option (Answer S) → Outcome Value → Answer S
  unfolding record_success record_failure clear_sticky is_failover_eligible
  after_endpoint started e client s hopped (good value) =
      (good value, record_success started e client s, s)
  after_endpoint started e client s none (bad error) =
      (bad error, record_failure started error (clear_sticky e client) s, s)
  after_endpoint started e client s (some hopped) (bad error) =
      if is_failover_eligible error
      then hopped
      else (bad error, record_failure started error (clear_sticky e client) s, s)

  -- The loop over the endpoints: this one, and those after it.
  unfoldable pub try_endpoints : S → Endpoint → List Endpoint → RpcClient → S → Answer S
  unfolding request_on_endpoint after_endpoint
  try_endpoints started e [] client s =
      let (outcome, client', s') = request_on_endpoint e.url client s in
      after_endpoint started e client' s' none outcome
  try_endpoints started e (next ∷ later) client s =
      let (outcome, client', s') = request_on_endpoint e.url client s in
      let hopped =
        try_endpoints started next later (count_in method one_retry (clear_sticky e client')) s' in
      after_endpoint started e client' s' (some hopped) outcome

  unfoldable pub call_endpoints : List Endpoint → RpcClient → S → Answer S
  unfolding try_endpoints count_in
  call_endpoints [] client s = (bad not_configured, client, s)
  call_endpoints (e ∷ es) client s =
      let called = count_in method one_call client in
      try_endpoints s e es (record called { last_call_at = some (net.now s) }) s

  -- The environment, the URL of the call, and the state of the client.
  unfoldable pub request_rpc_data :
      Option Text → Option Text → Option Text → RpcClient → S → Answer S
  unfolding call_endpoints order_endpoints resolve_rpc_endpoints
  request_rpc_data env_primary env_fallback rpc_url client s =
      call_endpoints
        (order_endpoints (sticky_url client)
          (resolve_rpc_endpoints env_primary env_fallback rpc_url))
        client s
