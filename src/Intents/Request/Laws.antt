-- ===== src/Intents/Request/Laws.antt =====
-- What a request that parses holds (server/src/stakingIntents.ts, server/src/txHashFromSerialized.ts).
use steakout.Prelude.{
  ℕ, suc, ◌≤◌, ◌<◌, ◌≡◌, refl, sym, ap, ◌∙◌, Text, text, trim, true, Option, none, some, [], ◌∷◌,
  map, arith, length, all, ◌==◌,
}
use steakout.Addresses.{normalize_address, is_valid_nimiq_address}
use steakout.Addresses.Laws.{is_valid_normalize, normalize_address_idem}
use steakout.Api.{Result, ok}
use steakout.Staking.{Operation, IntentParams}
use steakout.Rpc.{normalize_tx_hash, without_prefix, to_lower}
use steakout.Intents.Request.{
  Value, Fields, object, get_field, max_safe_luna, positive_luna, non_negative_luna, address_value,
  optional, has_required, read_params, parse_and_validate_params, is_hex, is_tx_hash_hex,
  try_derive_tx_hash, reference_of_text, normalize_provider_tx_ref, reference_of_fields,
}

abbrev IsPositiveLuna : Option ℕ → Type 0
IsPositiveLuna none = Unit
IsPositiveLuna (some n) = (0 < n) × (n ≤ max_safe_luna)

abbrev IsSafeLuna : Option ℕ → Type 0
IsSafeLuna none = Unit
IsSafeLuna (some n) = n ≤ max_safe_luna

-- A valid address in its normal form.
abbrev IsAddress : Option Text → Type 0
IsAddress none = Unit
IsAddress (some t) = (is_valid_nimiq_address (some t) ≡ true) × (normalize_address t ≡ t)

pub record IsWellFormed (op : Operation) (p : IntentParams) : Type 0 where
  pub value : IsPositiveLuna p.value_luna
  pub retired : IsPositiveLuna p.retire_stake_luna
  pub active : IsSafeLuna p.new_active_balance_luna
  pub delegation : IsAddress p.delegation
  pub new_delegation : IsAddress p.new_delegation
  pub required : has_required op p ≡ true

positive_luna-optional :
    (v : Value) (o : Option ℕ) → optional positive_luna v ≡ ok o → IsPositiveLuna o
unfolding optional positive_luna
positive_luna-optional v none h = tt
positive_luna-optional v (some n) h = ground arith

IsSafeLuna-optional :
    (v : Value) (o : Option ℕ) → optional non_negative_luna v ≡ ok o → IsSafeLuna o
unfolding optional non_negative_luna
IsSafeLuna-optional v none h = tt
IsSafeLuna-optional v (some n) h = ground arith

address_value-some :
    (v : Value) (t : Text)
    → address_value v ≡ some t
    → (s : Text) × (is_valid_nimiq_address (some s) ≡ true) × (normalize_address s ≡ t)
unfolding address_value
address_value-some (Value.string s) t h = (s, ground arith, ground arith)
address_value-some Value.absent t h = absurd (ground arith)
address_value-some Value.null t h = absurd (ground arith)
address_value-some Value.array t h = absurd (ground arith)
address_value-some (Value.boolean b) t h = absurd (ground arith)
address_value-some (Value.number n) t h = absurd (ground arith)
address_value-some (Value.object f) t h = absurd (ground arith)

optional-some :
    (v : Value) (t : Text) → optional address_value v ≡ ok (some t) → address_value v ≡ some t
unfolding optional
optional-some Value.absent t h = absurd (ground arith)
optional-some _ t h = ground arith

IsAddress-optional : (v : Value) (o : Option Text) → optional address_value v ≡ ok o → IsAddress o
IsAddress-optional v none h = tt
IsAddress-optional v (some t) h =
    let (s, valid, e) = address_value-some v t (optional-some v t h) in
    (
      ap (λ u. is_valid_nimiq_address (some u)) (sym e) ∙ is_valid_normalize s ∙ valid,
      ap normalize_address (sym e) ∙ normalize_address_idem s ∙ e,
    )

-- The property that a parameter was read from.
abbrev property {ℓ} : {A : Type ℓ} → (Value → Option A) → Text → Fields → Result (Option A)
property read key input = optional read (get_field key input)

read_params-fields :
    (input : Fields) (p : IntentParams)
    → read_params input ≡ ok p
    → (property positive_luna (text "valueLuna") input ≡ ok p.value_luna)
      × (property positive_luna (text "retireStakeLuna") input ≡ ok p.retire_stake_luna)
      × (property non_negative_luna (text "newActiveBalanceLuna") input
          ≡ ok p.new_active_balance_luna)
      × (property address_value (text "delegation") input ≡ ok p.delegation)
      × (property address_value (text "newDelegation") input ≡ ok p.new_delegation)
unfolding read_params
read_params-fields input p h = ground arith

params_of_request :
    (op : Operation) (input : Fields) (p : IntentParams)
    → parse_and_validate_params op (object input) ≡ ok p
    → (read_params input ≡ ok p) × (has_required op p ≡ true)
unfolding parse_and_validate_params
params_of_request op input p h = ground arith

-- Parameters that are accepted hold amounts from 1 (or 0, for a new active balance) to the largest
-- safe integer, valid addresses in their normal form, and all that the operation cannot do without.
pub parse_params-IsWellFormed :
    (op : Operation) (v : Value) (p : IntentParams)
    → parse_and_validate_params op v ≡ ok p
    → IsWellFormed op p
parse_params-IsWellFormed op (object input) p h =
    let (read, required) = params_of_request op input p h in
    let (value, retired, active, delegation, new_delegation) = read_params-fields input p read in
    record {
      value = positive_luna-optional _ p.value_luna value;
      retired = positive_luna-optional _ p.retire_stake_luna retired;
      active = IsSafeLuna-optional _ p.new_active_balance_luna active;
      delegation = IsAddress-optional _ p.delegation delegation;
      new_delegation = IsAddress-optional _ p.new_delegation new_delegation;
      required = required;
    }
parse_params-IsWellFormed op _ p h = absurd (unfold parse_and_validate_params in ground arith)

to_lower-is_hex : (c : ℕ) → is_hex c ≡ true → is_hex (to_lower c) ≡ true
unfolding is_hex to_lower
to_lower-is_hex c h = ground arith

all_hex-lower : (t : Text) → all is_hex t ≡ true → all is_hex (map to_lower t) ≡ true
all_hex-lower [] h = refl
all_hex-lower (c ∷ t) h = ground (arith, to_lower-is_hex c, all_hex-lower t)

length-lower : (t : Text) → length (map to_lower t) ≡ length t
length-lower [] = refl
length-lower (c ∷ t) = ap suc (length-lower t)

without_prefix-hex : (t : Text) → all is_hex t ≡ true → without_prefix t ≡ t
unfolding without_prefix is_hex
without_prefix-hex [] h = refl
without_prefix-hex (c ∷ []) h = refl
without_prefix-hex (z ∷ x ∷ rest) h = ground arith

hash_normalized : (t : Text) → is_tx_hash_hex t ≡ true → is_tx_hash_hex (normalize_tx_hash t) ≡ true
unfolding is_tx_hash_hex normalize_tx_hash
hash_normalized t h =
    let all_hex : all is_hex t ≡ true = ground arith in
    let long : (length t == 64) ≡ true = ground arith in
    rw (without_prefix-hex t all_hex, length-lower t, all_hex-lower t all_hex, long)

derived_is_hash :
    (from_any : Text → Option Text) (value hash : Text)
    → try_derive_tx_hash from_any value ≡ some hash
    → is_tx_hash_hex hash ≡ true
unfolding try_derive_tx_hash
derived_is_hash from_any value hash h =
    ground (arith, hash_normalized (without_prefix (trim value)))

reference_is_hash :
    (from_any : Text → Option Text) (raw hash : Text)
    → reference_of_text from_any raw ≡ ok hash
    → is_tx_hash_hex hash ≡ true
unfolding reference_of_text
reference_is_hash from_any raw hash h = ground (arith, derived_is_hash from_any raw hash)

-- The text of a reference that is accepted.
reference_text :
    (from_any : Text → Option Text) (v : Value) (hash : Text)
    → normalize_provider_tx_ref from_any v ≡ ok hash
    → (raw : Text) × (reference_of_text from_any raw ≡ ok hash)
unfolding normalize_provider_tx_ref
reference_text from_any (Value.string raw) hash h = (raw, h)
reference_text from_any (Value.object f) hash h =
    fields (get_field (text "hash") f) (get_field (text "txHash") f) h
  where
    fields :
        (a b : Value)
        → reference_of_fields from_any a b ≡ ok hash
        → (raw : Text) × (reference_of_text from_any raw ≡ ok hash)
    fields (Value.string raw) b k = (raw, k)
    fields _ (Value.string raw) k = (raw, k)
    fields _ _ k = absurd (ground arith)
reference_text from_any _ hash h = absurd (ground arith)

-- A transaction reference that is accepted is the hash of a transaction, in 64 hexadecimal digits:
-- the one that was sent, or the one that the sent serialized transaction hashes to.
pub tx_ref_is_hash :
    (from_any : Text → Option Text) (v : Value) (hash : Text)
    → normalize_provider_tx_ref from_any v ≡ ok hash
    → is_tx_hash_hex hash ≡ true
tx_ref_is_hash from_any v hash h =
    let (raw, k) = reference_text from_any v hash h in reference_is_hash from_any raw hash k
