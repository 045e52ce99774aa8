-- ===== src/Rpc/Client/Sticky.antt =====
-- The sticky endpoint of server/src/nimiq-rpc.ts: which one it is after a call, and in the next call.
use mathlib.Core.Path.{subst}
use steakout.Prelude.{
  ◌≡◌, refl, ap, ◌∙◌, Text, text_eq, text_eq_iff, trim, is_empty, Bool, true, false, not, Option,
  none, some, List, [], ◌∷◌, any, all, if◌then◌else◌, arith, Bool-cases, inl, inr,
}
use steakout.Json.{Value}
use steakout.Rpc.Request.{good, bad}
use steakout.Rpc.Client.{
  Answer, Endpoint, RpcClient, Net, sticky_url, configured, with_fallback, order_endpoints,
  resolve_rpc_endpoints, request_rpc_data,
}
use steakout.Rpc.Client.Order.{IsMovedFirst, order_endpoints-IsMovedFirst}
use steakout.Rpc.Client.Replies.{IsReply, Sticks, calls-Sticks, ordered-Sticks}

abbrev is_full : Option Text → Bool
is_full none = true
is_full (some t) = not (is_empty t)

filled :
    (empty : Bool) (t : Text) → is_empty t ≡ empty → is_full (if empty then none else some t) ≡ true
filled true t h = refl
filled false t h = rw h refl

configured-is_full : (t : Option Text) → is_full (configured t) ≡ true
configured-is_full none = refl
configured-is_full (some t) = filled (is_empty (trim t)) (trim t) refl

abbrev has_url : Endpoint → Bool
has_url e = not (is_empty e.url)

with_fallback-full :
    (p f : Option Text)
    → is_full p ≡ true
    → is_full f ≡ true
    → all has_url (with_fallback p f) ≡ true
unfolding with_fallback
with_fallback-full none none h g = refl
with_fallback-full none (some f) h g = rw g refl
with_fallback-full (some p) none h g = rw h refl
with_fallback-full (some p) (some f) h g = elim (Bool-cases (text_eq f p)) [
  | inl t ↦ rw (t, h) refl
  | inr t ↦ rw (t, h, g) refl
]

found_full :
    (url : Text) (endpoints : List Endpoint)
    → any (λ x. text_eq x.url url) endpoints ≡ true
    → all has_url endpoints ≡ true
    → is_empty url ≡ false
found_full url [] h g = absurd (ground arith)
found_full url (x ∷ xs) h g = elim (Bool-cases (text_eq x.url url)) [
  | inl same ↦ subst (λ t. is_empty t ≡ false) ((text_eq_iff x.url url).0 same) (ground arith)
  | inr other ↦ found_full url xs (ground arith) (ground arith)
]

module _ {S : Type 0} (net : Net S) (method : Text) (params : List Value) where
  -- What a call that was answered with a value leaves: the sticky endpoint is the one whose reply
  -- this was, and the next call with these endpoints begins with it.
  pub record IsFirst (v : Value) (client : RpcClient) (s : S) (endpoints : List Endpoint)
      : Type 0 where
    pub url : Text
    pub sticks : sticky_url client ≡ some url
    pub reply : IsReply net method params url v s
    pub e : Endpoint
    pub others : List Endpoint
    pub order : order_endpoints (sticky_url client) endpoints ≡ e ∷ others
    pub moved : IsMovedFirst url endpoints e others

  IsFirst-next :
      (endpoints : List Endpoint) (a : Answer S) (v : Value)
      → all has_url endpoints ≡ true
      → Sticks net method params endpoints a
      → a.0 ≡ good v
      → IsFirst v a.1 a.2 endpoints
  IsFirst-next endpoints (bad error, client, s) v full h g = absurd (ground arith)
  IsFirst-next endpoints (good v', client, s) v full (e, sticky, there, r) g =
      let same : v' ≡ v = cc in
      let sticks : sticky_url client ≡ some e.url = rw sticky refl in
      let (first, others, order, moved) =
        order_endpoints-IsMovedFirst e.url endpoints (found_full e.url endpoints there full)
          there in
      record {
        url = e.url;
        sticks = sticks;
        reply = subst (λ w. IsReply net method params e.url w s) same r;
        e = first;
        others = others;
        order = ap (λ u. order_endpoints u endpoints) sticks ∙ order;
        moved = moved;
      }

  -- The endpoint that has answered a call, of the two that the environment configures, is the sticky
  -- one: the value was read from its reply to a last request. The next call with the same
  -- environment tries it first and all others after it.
  pub answered-IsFirst :
      (env_primary env_fallback : Option Text) (client : RpcClient) (s : S) (v : Value)
      → (request_rpc_data net method params env_primary env_fallback none client s).0 ≡ good v
      → IsFirst v
          (request_rpc_data net method params env_primary env_fallback none client s).1
          (request_rpc_data net method params env_primary env_fallback none client s).2
          (resolve_rpc_endpoints env_primary env_fallback none)
  unfolding request_rpc_data resolve_rpc_endpoints
  answered-IsFirst env_primary env_fallback client s v h =
      let endpoints = with_fallback (configured env_primary) (configured env_fallback) in
      IsFirst-next endpoints _ v
        (with_fallback-full _ _ (configured-is_full env_primary) (configured-is_full env_fallback))
        (ordered-Sticks net method params (sticky_url client) endpoints _
          (calls-Sticks net method params (order_endpoints (sticky_url client) endpoints) client s))
        h
