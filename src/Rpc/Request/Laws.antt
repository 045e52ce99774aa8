-- ===== src/Rpc/Request/Laws.antt =====
-- Which failures of a request of server/src/nimiq-rpc.ts are tried again, and how long the client waits.
use mathlib.Core.Path.{subst}
use native.Mathlib.Nat.{le-div_iff_mul-le, div-lt_iff_lt-mul}
use steakout.Prelude.{
  ℕ, zero, suc, ◌+◌, ◌-◌, ◌*◌, ◌^◌, ◌≤◌, ◌<◌, ◌≡◌, refl, sym, ap, ◌∙◌, min, Text, Bool, true, false,
  not, ◌&&◌, ◌||◌, Option, none, some, leb, ◌==◌, if◌then◌else◌, arith, Bool-cases, inl, inr,
}
use steakout.Json.{Value, Fields}
use steakout.Rpc.Request.{
  RpcError, Outcome, good, bad, Fetched, aborted, threw, response, ClientConfig, default_config,
  fields_of, is_present, is_in, method_failure, data_of_result, data_of_payload, data_of_body,
  is_transient_status, is_ok, request_once, random_unit, exponential_ms, backoff_delay_ms,
}
use steakout.Rpc.Client.{is_failover_eligible}

-- No answer of the node arrived, or one that says that it may arrive later.
abbrev pub is_transient : Fetched → Bool
is_transient aborted = true
is_transient (threw reason) = true
is_transient (response status body) = status == 429 || status == 408 || leb 500 status

-- The node has answered with a status of success.
abbrev pub is_answered : Fetched → Bool
is_answered (response status body) = leb 200 status && leb status 299
is_answered _ = false

-- A failure that is neither retried nor passed on to another endpoint.
abbrev IsFinal : Outcome Value → Type 0
IsFinal (good v) = Unit
IsFinal (bad e) = (e.retriable ≡ false) × (is_failover_eligible e ≡ false)

choose-IsFinal :
    (b : Bool) (x y : Outcome Value) → IsFinal x → IsFinal y → IsFinal (if b then x else y)
choose-IsFinal true x y p q = p
choose-IsFinal false x y p q = q

result-IsFinal : (method : Text) (o : Option Fields) → IsFinal (data_of_result method o)
unfolding data_of_result is_failover_eligible
result-IsFinal method none = (refl, refl)
result-IsFinal method (some f) = choose-IsFinal (is_in _) (good _) (bad _) tt (refl, refl)

payload-IsFinal : (method : Text) (o : Option Fields) → IsFinal (data_of_payload method o)
unfolding data_of_payload method_failure is_failover_eligible
payload-IsFinal method none = (refl, refl)
payload-IsFinal method (some f) =
    choose-IsFinal (is_present _) (bad _) (data_of_result method _) (refl, refl)
      (result-IsFinal method _)

body-IsFinal : (method : Text) (o : Option Value) → IsFinal (data_of_body method o)
unfolding data_of_body is_failover_eligible
body-IsFinal method none = (refl, refl)
body-IsFinal method (some payload) = payload-IsFinal method (fields_of payload)

-- A failure is judged as the answer to the `fetch` tells.
abbrev Judged : Fetched → Outcome Value → Type 0
Judged f (good v) = Unit
Judged f (bad e) = (e.retriable ≡ is_transient f) × (is_failover_eligible e ≡ not (is_answered f))

final-Judged :
    (status : ℕ) (body : Option Value) (o : Outcome Value)
    → is_transient (response status body) ≡ false
    → is_answered (response status body) ≡ true
    → IsFinal o
    → Judged (response status body) o
final-Judged status body (good v) t a h = tt
final-Judged status body (bad e) t a (r, f) = (r ∙ sym t, f ∙ ap not (sym a))

unanswered :
    (status : ℕ)
    → (status == 429 || status == 408 || leb 500 status) ≡ true
    → (leb 200 status && leb status 299) ≡ false
unanswered status h = ground arith

request-Judged :
    (method : Text) (config : ClientConfig) (f : Fetched) → Judged f (request_once method config f)
unfolding request_once is_failover_eligible
request-Judged method config aborted = (refl, refl)
request-Judged method config (threw reason) = (refl, refl)
request-Judged method config (response status body) =
    elim (Bool-cases (is_transient_status method status)) [
      | inl t ↦ rw t (sym t, sym (ap not (unanswered status t)))
      | inr t ↦ elim (Bool-cases (is_ok method status)) [
        | inl a ↦
            rw (t, a)
              (final-Judged status body (data_of_body method body) t a (body-IsFinal method body))
        | inr a ↦ rw (t, a) (sym t, ap not (sym a))
      ]
    ]

-- A request that fails is tried again exactly if it was aborted, if the `fetch` threw, or if the
-- status is 408, 429 or from 500 on; and another endpoint may be tried exactly if the node did not
-- answer with a status of success.
pub failure-judged :
    (method : Text) (config : ClientConfig) (f : Fetched) (e : RpcError)
    → request_once method config f ≡ bad e
    → (e.retriable ≡ is_transient f) × (is_failover_eligible e ≡ not (is_answered f))
failure-judged method config f e h = subst (Judged f) h (request-Judged method config f)

product_sum : (e r d : ℕ) → e * r ≤ e * (r + d)
product_sum e r d = omega arith

product_mono : (e r n : ℕ) → r < n → e * r ≤ e * n
product_mono e r n h =
    let rest : r + (n - r) ≡ n = omega (arith, h) in
    subst (λ m. e * r ≤ e * m) rest (product_sum e r (n - r))

-- The spread of the delay, with the product of the delay and the random number in one number.
spread_bounds :
    (e random : ℕ)
    → 2000 ≤ e
    → e ≤ 300000
    → e * random ≤ e * 2 ^ 53
    → (2000 * (2 * (10 ^ 1 * 2 ^ 53)) ≤ 2 * (e * (10 ^ 1 * 2 ^ 53 + 2 * random)) + 10 ^ 1 * 2 ^ 53)
      × (2 * (e * (10 ^ 1 * 2 ^ 53 + 2 * random)) + 10 ^ 1 * 2 ^ 53
          < suc 360000 * (2 * (10 ^ 1 * 2 ^ 53)))
spread_bounds e random least most spread = (omega (arith, least), omega (arith, most, spread))

-- 2 ^ 0 and on are not zero.
power_positive : (k : ℕ) → 1 ≤ 2 ^ k
power_positive zero = omega arith
power_positive (suc k) = omega (arith, power_positive k)

least_wait : (p : ℕ) → 1 ≤ p → 2000 ≤ min 300000 (2000 * p)
least_wait p h = omega (arith, h)

-- With the default configuration the client waits from two seconds to six minutes before the next
-- attempt, whatever the attempt and the random number are.
pub backoff_bounds :
    (random attempt : ℕ)
    → random < random_unit
    → (2000 ≤ backoff_delay_ms default_config random attempt)
      × (backoff_delay_ms default_config random attempt ≤ 6 * 60000)
unfolding backoff_delay_ms
backoff_bounds random attempt h =
    let e = exponential_ms default_config attempt in
    let least : 2000 ≤ e = least_wait (2 ^ (attempt - 1)) (power_positive (attempt - 1)) in
    let spread : e * random ≤ e * 2 ^ 53 = product_mono e random (2 ^ 53) h in
    let (low, high) = spread_bounds e random least (omega arith) spread in
    let under : backoff_delay_ms default_config random attempt < suc 360000 =
      (div-lt_iff_lt-mul (omega arith)).1 high in
    ((le-div_iff_mul-le (omega arith)).1 low, omega (arith, under))
