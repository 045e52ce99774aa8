-- ===== src/Rpc/Client/Order.antt =====
-- The order in which server/src/nimiq-rpc.ts tries its endpoints.
use steakout.Prelude.{
  ℕ, suc, ◌≤◌, ◌≡◌, refl, sym, ap, ◌∙◌, Text, text_eq, trim, is_empty, Bool, true, false, Option,
  none, some, List, [], ◌∷◌, any, count, length, leb, if◌then◌else◌, arith, Bool-cases, inl, inr,
}
use steakout.Rpc.Client.{
  Endpoint, configured, is_url, with_fallback, resolve_rpc_endpoints, take_url, order_endpoints,
}

-- The same endpoints, of which the first has a URL.
pub record IsMovedFirst (url : Text) (endpoints : List Endpoint) (e : Endpoint)
    (others : List Endpoint) : Type 0 where
  pub same_url : text_eq e.url url ≡ true
  pub kept : (p : Endpoint → Bool) → count p (e ∷ others) ≡ count p endpoints

swapped :
    (p : Endpoint → Bool) (e x : Endpoint) (others xs : List Endpoint)
    → count p (e ∷ others) ≡ count p xs
    → count p (e ∷ x ∷ others) ≡ count p (x ∷ xs)
swapped p e x others xs h = ground (arith, h)

take-IsMovedFirst :
    (url : Text) (endpoints : List Endpoint)
    → any (λ e. text_eq e.url url) endpoints ≡ true
    → (e : Endpoint) × (others : List Endpoint) × (take_url url endpoints ≡ some (e, others))
      × IsMovedFirst url endpoints e others
unfolding take_url
take-IsMovedFirst url [] h = absurd (ground arith)
take-IsMovedFirst url (x ∷ xs) h = elim (Bool-cases (text_eq x.url url)) [
  | inl mine ↦ (x, xs, rw mine refl, record { same_url = mine; kept = λ p. refl })
  | inr other ↦
      let (e, others, taken, moved) = take-IsMovedFirst url xs (ground arith) in
      (
        e,
        x ∷ others,
        rw (other, taken) refl,
        record { same_url = moved.same_url; kept = λ p. swapped p e x others xs (moved.kept p) },
      )
]

-- The sticky endpoint, if it has a URL and is one of the endpoints, is tried first, and each of the
-- others is still tried after it.
pub order_endpoints-IsMovedFirst :
    (url : Text) (endpoints : List Endpoint)
    → is_empty url ≡ false
    → any (λ e. text_eq e.url url) endpoints ≡ true
    → (e : Endpoint) × (others : List Endpoint) × (order_endpoints (some url) endpoints
        ≡ e ∷ others)
      × IsMovedFirst url endpoints e others
unfolding order_endpoints
order_endpoints-IsMovedFirst url endpoints full h =
    let (e, others, taken, moved) = take-IsMovedFirst url endpoints h in
    (e, others, rw (full, taken) refl, moved)

-- An endpoint and the others, of which that many pass a test.
abbrev Fits : (Endpoint → Bool) → ℕ → Option (Endpoint × List Endpoint) → Type 0
Fits p n none = Unit
Fits p n (some (e, others)) = count p (e ∷ others) ≡ n

module _ (p : Endpoint → Bool) where
  pushed :
      (x : Endpoint) (xs : List Endpoint) (o : Option (Endpoint × List Endpoint))
      → Fits p (count p xs) o
      → Fits p
          (count p (x ∷ xs))
          (elim o [ none ↦ none | some (preferred, others) ↦ some (preferred, x ∷ others) ])
  pushed x xs none h = tt
  pushed x xs (some (e, others)) h = swapped p e x others xs h

  take-Fits :
      (url : Text) (endpoints : List Endpoint) → Fits p (count p endpoints) (take_url url endpoints)
  unfolding take_url
  take-Fits url [] = tt
  take-Fits url (x ∷ xs) = elim (Bool-cases (text_eq x.url url)) [
    | inl mine ↦ rw mine refl
    | inr other ↦ rw other (pushed x xs (take_url url xs) (take-Fits url xs))
  ]

  ordered-count :
      (empty : Bool) (endpoints : List Endpoint) (o : Option (Endpoint × List Endpoint))
      → Fits p (count p endpoints) o
      → count p
          (if empty then endpoints else elim o [ none ↦ endpoints | some (e, others) ↦ e ∷ others ])
        ≡ count p endpoints
  ordered-count true endpoints o h = refl
  ordered-count false endpoints none h = refl
  ordered-count false endpoints (some (e, others)) h = h

  pub order-count :
      (sticky : Option Text) (endpoints : List Endpoint)
      → count p (order_endpoints sticky endpoints) ≡ count p endpoints
  unfolding order_endpoints
  order-count none endpoints = refl
  order-count (some url) endpoints =
      ordered-count (is_empty url) endpoints (take_url url endpoints) (take-Fits url endpoints)

  any-count : (xs : List Endpoint) → any p xs ≡ leb 1 (count p xs)
  any-count [] = refl
  any-count (x ∷ xs) = ground (arith, any-count xs)

  pub order-any :
      (sticky : Option Text) (endpoints : List Endpoint)
      → any p (order_endpoints sticky endpoints) ≡ any p endpoints
  order-any sticky endpoints =
      any-count _ ∙ ap (leb 1) (order-count sticky endpoints) ∙ sym (any-count endpoints)

length-count : (xs : List Endpoint) → length xs ≡ count (λ e. true) xs
length-count [] = refl
length-count (x ∷ xs) = ap suc (length-count xs)

pub order-length :
    (sticky : Option Text) (endpoints : List Endpoint)
    → length (order_endpoints sticky endpoints) ≡ length endpoints
order-length sticky endpoints =
    length-count _ ∙ order-count (λ e. true) sticky endpoints ∙ sym (length-count endpoints)

with_fallback-length : (p f : Option Text) → length (with_fallback p f) ≤ 2
unfolding with_fallback
with_fallback-length none none = omega arith
with_fallback-length none (some f) = omega arith
with_fallback-length (some p) none = omega arith
with_fallback-length (some p) (some f) = elim (Bool-cases (text_eq f p)) [
  | inl t ↦ rw t (omega arith)
  | inr t ↦ rw t (omega arith)
]

choose_length :
    (b : Bool) (xs ys : List Endpoint)
    → length xs ≤ 2
    → length ys ≤ 2
    → length (if b then xs else ys) ≤ 2
choose_length true xs ys p q = p
choose_length false xs ys p q = q

pub resolve-length :
    (env_primary env_fallback rpc_url : Option Text)
    → length (resolve_rpc_endpoints env_primary env_fallback rpc_url) ≤ 2
unfolding resolve_rpc_endpoints
resolve-length env_primary env_fallback none = with_fallback-length _ _
resolve-length env_primary env_fallback (some rpc_url) =
    choose_length (is_empty rpc_url) _ _ (with_fallback-length _ _) (
      choose_length (is_url (trim rpc_url) (configured env_primary)) _ _ (with_fallback-length _ _)
        (choose_length (is_url (trim rpc_url) (configured env_fallback)) (_ ∷ []) (_ ∷ [])
          (omega arith) (omega arith)))
