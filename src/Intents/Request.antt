-- ===== src/Intents/Request.antt =====
-- The body of a request: JSON values, the operation, its parameters and the transaction reference.
pub mod Laws
use steakout.Prelude.{
  ℕ, zero, suc, ◌+◌, ◌-◌, ◌%◌, ◌^◌, Text, text, text_eq, trim, is_empty, Bool, true, false, not,
  ◌&&◌, ◌||◌, Option, none, some, List, [], ◌∷◌, ltb, leb, ◌==◌, if◌then◌else◌, all, length,
  is_some,
}
use steakout.Prelude.Js.{Num, real, nonfinite}
use steakout.Prelude.Int.{ℤ, pos, negsuc}
pub use steakout.Json.{
  Value, absent, null, array, boolean, number, string, object, Fields, end, field, get_field,
}
use steakout.Addresses.{normalize_address, is_valid_nimiq_address}
use steakout.Api.{Result, ok, err, invalid, require, ◌>>=◌, ◌>>◌}
use steakout.Staking.{
  Operation, new_staker, stake, set_active, update_staker, retire, remove, IntentParams,
}
use steakout.Rpc.{without_prefix, normalize_tx_hash}

-- `Number.MAX_SAFE_INTEGER`
abbrev pub max_safe_luna : ℕ
max_safe_luna = 2 ^ 53 - 1

unfoldable pub positive_luna : Value → Option ℕ
positive_luna (number (real (pos n) true)) = if ltb 0 n && leb n max_safe_luna then some n else none
positive_luna _ = none

unfoldable pub non_negative_luna : Value → Option ℕ
non_negative_luna (number (real (pos n) true)) = if leb n max_safe_luna then some n else none
non_negative_luna _ = none

unfoldable pub address_value : Value → Option Text
address_value (string t) =
    if is_valid_nimiq_address (some t) then some (normalize_address t) else none
address_value _ = none

unfoldable pub boolean_value : Value → Option Bool
boolean_value (boolean b) = some b
boolean_value _ = none

-- A property that may be missing; one that is there must pass its test.
unfoldable pub optional {ℓ} : {A : Type ℓ} → (Value → Option A) → Value → Result (Option A)
optional read absent = ok none
optional read v = elim (read v) [ none ↦ err invalid | some a ↦ ok (some a) ]

unfoldable pub operation_of : Text → Option Operation
operation_of t =
    if text_eq t (text "new-staker")
    then some new_staker
    else if text_eq t (text "stake")
    then some stake
    else if text_eq t (text "set-active")
    then some set_active
    else if text_eq t (text "update-staker")
    then some update_staker
    else if text_eq t (text "retire")
    then some retire
    else if text_eq t (text "remove")
    then some remove
    else none

unfoldable pub parse_operation : Value → Result Operation
parse_operation (string t) = elim (operation_of t) [ none ↦ err invalid | some op ↦ ok op ]
parse_operation _ = err invalid

-- The `switch` on the operation: the parameters that it cannot do without.
unfoldable pub has_required : Operation → IntentParams → Bool
has_required new_staker p = is_some p.value_luna && is_some p.delegation
has_required stake p = is_some p.value_luna
has_required set_active p = is_some p.new_active_balance_luna
has_required update_staker p = is_some p.new_delegation || is_some p.reactivate_all_stake
has_required retire p = is_some p.retire_stake_luna
has_required remove p = is_some p.value_luna

unfoldable pub read_params : Fields → Result IntentParams
unfolding get_field
read_params input = do
  value ← optional positive_luna (get_field (text "valueLuna") input)
  retired ← optional positive_luna (get_field (text "retireStakeLuna") input)
  active ← optional non_negative_luna (get_field (text "newActiveBalanceLuna") input)
  delegation ← optional address_value (get_field (text "delegation") input)
  new_delegation ← optional address_value (get_field (text "newDelegation") input)
  reactivate ← optional boolean_value (get_field (text "reactivateAllStake") input)
  ok (record {
    value_luna = value;
    delegation = delegation;
    new_active_balance_luna = active;
    new_delegation = new_delegation;
    reactivate_all_stake = reactivate;
    retire_stake_luna = retired;
  })

unfoldable pub parse_and_validate_params : Operation → Value → Result IntentParams
parse_and_validate_params op (object input) = do
  params ← read_params input
  require (has_required op params) invalid
  ok params
parse_and_validate_params op _ = err invalid

-- `/^[0-9a-fA-F]+$/`, with the length tested apart.
unfoldable pub is_hex : ℕ → Bool
is_hex c = (leb b'0' c && leb c b'9') || (leb b'a' c && leb c b'f') || (leb b'A' c && leb c b'F')

unfoldable pub is_tx_hash_hex : Text → Bool
unfolding is_hex
is_tx_hash_hex t = length t == 64 && all is_hex t

-- `Transaction.fromAny(hex).hash()` of @nimiq/core, `none` where it throws, is a parameter
-- (server/src/txHashFromSerialized.ts).
module _ (from_any : Text → Option Text) where
  unfoldable pub derive_from_serialized : Text → Option Text
  derive_from_serialized hex = elim (from_any hex) [
    | none ↦ none
    | some h ↦ let hash = normalize_tx_hash h in if is_tx_hash_hex hash then some hash else none
  ]

  unfoldable pub try_derive_tx_hash : Text → Option Text
  unfolding derive_from_serialized
  try_derive_tx_hash value =
      let trimmed = trim value in
      let hex = without_prefix trimmed in
      if is_empty trimmed
      then none
      else if is_tx_hash_hex hex
      then some (normalize_tx_hash hex)
      else if is_empty hex || not (all is_hex hex) || not (length hex % 2 == 0)
      then none
      else derive_from_serialized hex

  unfoldable pub reference_of_text : Text → Result Text
  reference_of_text raw =
      if is_empty (trim raw)
      then err invalid
      else elim (try_derive_tx_hash raw) [ none ↦ err invalid | some hash ↦ ok hash ]

  abbrev pub reference_of_fields : Value → Value → Result Text
  reference_of_fields (string hash) _ = reference_of_text hash
  reference_of_fields _ (string tx_hash) = reference_of_text tx_hash
  reference_of_fields _ _ = err invalid

  unfoldable pub normalize_provider_tx_ref : Value → Result Text
  unfolding reference_of_text get_field
  normalize_provider_tx_ref (object f) =
      reference_of_fields (get_field (text "hash") f) (get_field (text "txHash") f)
  normalize_provider_tx_ref (string raw) = reference_of_text raw
  normalize_provider_tx_ref _ = err invalid
