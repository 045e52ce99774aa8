-- ===== src/Rpc/Request.antt =====
-- One request of server/src/nimiq-rpc.ts to one endpoint: requestOnce, formatRpcError and the delay
-- before the next attempt. What `fetch` gives is a value of `Fetched`; a delay is computed exactly.
pub mod Laws
use steakout.Prelude.{
  ℕ, zero, suc, ◌+◌, ◌-◌, ◌*◌, ◌/◌, ◌^◌, min, Text, text, digits, trim, is_empty, Bool, true, false,
  not, ◌&&◌, ◌||◌, Option, none, some, List, [], ◌∷◌, ◌++◌, map, ltb, leb, ◌==◌, if◌then◌else◌,
}
use steakout.Prelude.Js.{Decimal}
use steakout.Json.{Value, Fields, absent, null, string, object, array, end, get_field}
use steakout.Rpc.{RpcErrorCode, unavailable, malformed, method_error, to_lower, contains}

pub record RpcError : Type 0 where
  pub code : RpcErrorCode
  pub retriable : Bool
  pub http_status : Option ℕ
  pub message : Text

pub data Outcome {ℓ} (A : Type ℓ) : Type ℓ where
  good : A → Outcome A
  bad : RpcError → Outcome A

-- The `fetch` is aborted, or throws with a text, or gives a status and a body; `none` is a body that
-- is not JSON.
pub data Fetched : Type 0 where
  aborted : Fetched
  threw : Text → Fetched
  response : ℕ → Option Value → Fetched

pub record ClientConfig : Type 0 where
  pub timeout_ms : ℕ
  pub max_attempts : ℕ
  pub retry_base_ms : ℕ
  pub retry_max_ms : ℕ
  pub retry_jitter : Decimal

abbrev pub default_config : ClientConfig
default_config = record {
  timeout_ms = 10000;
  max_attempts = 5;
  retry_base_ms = 2000;
  retry_max_ms = 5 * 60000;
  retry_jitter = record { digits = 2; scale = 1 };
}

-- `isRecord`, with the fields of an array left out: none is named `error`, `result` or `data`.
unfoldable pub fields_of : Value → Option Fields
fields_of (object f) = some f
fields_of array = some end
fields_of _ = none

-- `typeof v === 'string' ? v : undefined`
abbrev pub string_of : Value → Option Text
string_of (string t) = some t
string_of _ = none

-- `t?.trim() || other`
abbrev pub trimmed_or : Text → Option Text → Text
trimmed_or other none = other
trimmed_or other (some t) = if is_empty (trim t) then other else trim t

unfoldable pub format_rpc_error : Option Text → Value → Text
unfolding to_lower
format_rpc_error error_message details =
    let shown = trimmed_or (text "Nimiq RPC error") error_message in
    let extra = trimmed_or [] (string_of details) in
    if is_empty extra || contains (map to_lower extra) (map to_lower shown)
    then shown
    else shown ++ (text ": " ++ extra)

-- `'error' in payload && payload.error != null`
abbrev pub is_present : Value → Bool
is_present absent = false
is_present null = false
is_present _ = true

abbrev pub is_in : Value → Bool
is_in absent = false
is_in _ = true

-- `isRecord(payload.error) ? payload.error : {}`
abbrev pub error_fields : Value → Fields
error_fields v = elim (fields_of v) [ some f ↦ f | none ↦ end ]

module _ (method : Text) where
  abbrev pub malformed_error : Text → RpcError
  malformed_error reason = record {
    code = malformed;
    retriable = false;
    http_status = none;
    message = reason;
  }

  unfoldable pub method_failure : Value → RpcError
  unfolding format_rpc_error fields_of
  method_failure error =
      let formatted =
        format_rpc_error (string_of (get_field (text "message") (error_fields error)))
          (get_field (text "data") (error_fields error)) in
      record {
        code = method_error;
        retriable = false;
        http_status = none;
        message = text "RPC " ++ method ++ text " returned an error: " ++ formatted;
      }

  unfoldable pub data_of_result : Option Fields → Outcome Value
  data_of_result none = bad (malformed_error (text "RPC " ++ method ++ text " result is malformed"))
  data_of_result (some f) =
      let found = get_field (text "data") f in
      if is_in found
      then good found
      else bad (malformed_error (text "RPC " ++ method ++ text " result is malformed"))

  unfoldable pub data_of_payload : Option Fields → Outcome Value
  unfolding method_failure data_of_result fields_of
  data_of_payload none = bad (malformed_error (text "RPC response is not an object"))
  data_of_payload (some f) =
      let result = data_of_result (fields_of (get_field (text "result") f)) in
      if is_present (get_field (text "error") f)
      then bad (method_failure (get_field (text "error") f))
      else result

  unfoldable pub data_of_body : Option Value → Outcome Value
  unfolding data_of_payload fields_of
  data_of_body none = bad (malformed_error (text "RPC " ++ method ++ text " response is not JSON"))
  data_of_body (some payload) = data_of_payload (fields_of payload)

  abbrev pub is_transient_status : ℕ → Bool
  is_transient_status status = status == 429 || status == 408 || leb 500 status

  -- `response.ok`
  abbrev pub is_ok : ℕ → Bool
  is_ok status = leb 200 status && leb status 299

  abbrev pub status_error : Bool → ℕ → RpcError
  status_error retriable status = record {
    code = unavailable;
    retriable = retriable;
    http_status = some status;
    message = text "RPC HTTP status " ++ digits status;
  }

  abbrev pub transport_error : Text → RpcError
  transport_error reason = record {
    code = unavailable;
    retriable = true;
    http_status = none;
    message = reason;
  }

  -- What requestOnce makes of the answer to its `fetch`.
  unfoldable pub request_once : ClientConfig → Fetched → Outcome Value
  unfolding data_of_body
  request_once config aborted = bad (
      transport_error (
        text "RPC " ++ method ++ text " timed out after " ++ digits config.timeout_ms ++ text "ms"))
  request_once config (threw reason) =
      bad (transport_error (text "RPC " ++ method ++ text " transport failed: " ++ reason))
  request_once config (response status body) =
      let read = data_of_body body in
      if is_transient_status status
      then bad (status_error true status)
      else if not (is_ok status)
      then bad (status_error false status)
      else read

-- The values of `Math.random()` are the multiples of 2 ** -53 below 1.
abbrev pub random_unit : ℕ
random_unit = 2 ^ 53

-- `Math.min(retryMaxMs, retryBaseMs * 2 ** (attempt - 1))`
abbrev pub exponential_ms : ClientConfig → ℕ → ℕ
exponential_ms config attempt = min config.retry_max_ms (config.retry_base_ms * 2 ^ (attempt - 1))

-- `Math.round(exponential * (1 + random * jitter))`, over the common denominator.
unfoldable pub backoff_delay_ms : ClientConfig → ℕ → ℕ → ℕ
backoff_delay_ms config random attempt =
    let whole = 10 ^ config.retry_jitter.scale * random_unit in
    (2 * (exponential_ms config attempt * (whole + config.retry_jitter.digits * random)) + whole)
    / (2 * whole)
