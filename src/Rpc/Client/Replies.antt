-- ===== src/Rpc/Client/Replies.antt =====
-- Which endpoint of server/src/nimiq-rpc.ts the value of a call was read from.
use steakout.Prelude.{
  ℕ, zero, suc, ◌+◌, ◌≡◌, refl, sym, ◌∙◌, Text, text_eq, text_eq_refl, true, Option, none, some,
  List, [], ◌∷◌, any, arith, Bool-cases, inl, inr,
}
use steakout.Json.{Value}
use steakout.Rpc.Request.{Outcome, good, bad, request_once}
use steakout.Rpc.Client.{
  Answer, after_attempt, attempts_from, after_endpoint, Endpoint, RpcClient, count_in, one_retry,
  Net, clear_sticky, is_failover_eligible, request_on_endpoint, record_success, try_endpoints,
  call_endpoints, order_endpoints,
}
use steakout.Rpc.Client.Order.{order-any}

module _ {S : Type 0} (net : Net S) (method : Text) (params : List Value) where
  -- A value was read from the reply to a request to this URL, the last thing that the network did.
  pub record IsReply (url : Text) (v : Value) (s : S) : Type 0 where
    pub asked : S
    pub read : request_once method net.config (net.post url method params asked).0 ≡ good v
    pub left : (net.post url method params asked).1 ≡ s

  -- Where there is an answer, it is a reply of this URL.
  abbrev Replies : Text → Answer S → Type 0
  Replies url (good v, client, s) = IsReply url v s
  Replies url (bad error, client, s) = Unit

  -- Where there is an answer, the sticky endpoint gave it, and is one of these.
  abbrev pub Sticks : List Endpoint → Answer S → Type 0
  Sticks endpoints (good v, client, s) =
      (e : Endpoint) × (client.sticky ≡ some e)
      × (any (λ x. text_eq x.url e.url) endpoints ≡ true)
      × IsReply e.url v s
  Sticks endpoints (bad error, client, s) = Unit

  abbrev AllStick : List Endpoint → Option (Answer S) → Type 0
  AllStick endpoints none = Unit
  AllStick endpoints (some a) = Sticks endpoints a

  last-Replies :
      (url : Text) (client : RpcClient) (s : S) (o : Outcome Value)
      → request_once method net.config (net.post url method params s).0 ≡ o
      → Replies url (o, client, (net.post url method params s).1)
  last-Replies url client s (good v) h = record { asked = s; read = h; left = refl }
  last-Replies url client s (bad error) h = tt

  again-Replies :
      (url : Text) (client : RpcClient) (s : S) (again : Answer S) (o : Outcome Value)
      → request_once method net.config (net.post url method params s).0 ≡ o
      → Replies url again
      → Replies url
          (after_attempt net method params client (net.post url method params s).1 again o)
  unfolding after_attempt
  again-Replies url client s again (good v) h k = record { asked = s; read = h; left = refl }
  again-Replies url client s again (bad error) h k = elim (Bool-cases error.retriable) [
    | inl t ↦ rw t k
    | inr t ↦ rw t tt
  ]

  attempts-Replies :
      (left attempt : ℕ) (url : Text) (client : RpcClient) (s : S)
      → Replies url (attempts_from net method params left attempt url client s)
  unfolding attempts_from
  attempts-Replies zero attempt url client s = last-Replies url client s _ refl
  attempts-Replies (suc left) attempt url client s =
      again-Replies url client s _ _ refl (attempts-Replies left (attempt + 1) url _ _)

  endpoint-Replies :
      (url : Text) (client : RpcClient) (s : S)
      → Replies url (request_on_endpoint net method params url client s)
  unfolding request_on_endpoint
  endpoint-Replies url client s = attempts-Replies _ 1 url client s

  Sticks-cons :
      (x : Endpoint) (endpoints : List Endpoint) (a : Answer S)
      → Sticks endpoints a
      → Sticks (x ∷ endpoints) a
  Sticks-cons x endpoints (good v, client, s) (e, sticky, there, reply) =
      (e, sticky, ground arith, reply)
  Sticks-cons x endpoints (bad error, client, s) h = tt

  after_endpoint-Sticks :
      (started : S) (e : Endpoint) (later : List Endpoint) (client : RpcClient) (s : S)
      (hopped : Option (Answer S)) (o : Outcome Value)
      → Replies e.url (o, client, s)
      → AllStick (e ∷ later) hopped
      → Sticks (e ∷ later) (after_endpoint net method params started e client s hopped o)
  unfolding after_endpoint record_success
  after_endpoint-Sticks started e later client s hopped (good v) reply h =
      (e, refl, ground (arith, text_eq_refl e.url), reply)
  after_endpoint-Sticks started e later client s none (bad error) reply h = tt
  after_endpoint-Sticks started e later client s (some hopped) (bad error) reply h =
      elim (Bool-cases (is_failover_eligible error)) [ inl t ↦ rw t h | inr t ↦ rw t tt ]

  try-Sticks :
      (started : S) (e : Endpoint) (later : List Endpoint) (client : RpcClient) (s : S)
      → Sticks (e ∷ later) (try_endpoints net method params started e later client s)
  unfolding try_endpoints
  try-Sticks started e [] client s =
      let (outcome, client', s') = request_on_endpoint net method params e.url client s in
      after_endpoint-Sticks started e [] client' s' none outcome (endpoint-Replies e.url client s)
        tt
  try-Sticks started e (next ∷ later) client s =
      let (outcome, client', s') = request_on_endpoint net method params e.url client s in
      let rest =
        try-Sticks started next later (count_in method one_retry (clear_sticky e client')) s' in
      after_endpoint-Sticks started e (next ∷ later) client' s' (some _) outcome
        (endpoint-Replies e.url client s) (Sticks-cons e (next ∷ later) _ rest)

  pub calls-Sticks :
      (endpoints : List Endpoint) (client : RpcClient) (s : S)
      → Sticks endpoints (call_endpoints net method params endpoints client s)
  unfolding call_endpoints
  calls-Sticks [] client s = tt
  calls-Sticks (e ∷ later) client s = try-Sticks s e later _ s

  pub ordered-Sticks :
      (sticky : Option Text) (endpoints : List Endpoint) (a : Answer S)
      → Sticks (order_endpoints sticky endpoints) a
      → Sticks endpoints a
  ordered-Sticks sticky endpoints (bad error, client, s) h = tt
  ordered-Sticks sticky endpoints (good v, client, s) (e, stuck, there, reply) =
      (e, stuck, sym (order-any (λ x. text_eq x.url e.url) sticky endpoints) ∙ there, reply)
