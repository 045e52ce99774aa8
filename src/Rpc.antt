-- ===== src/Rpc.antt =====
-- server/src/nimiq-rpc.ts: failures of a call and their mapping to API errors. For the
-- modules that read the chain each call is a function that returns a value or a failure; Request and
-- Client model how such a call is made.
pub mod Request
pub mod Client
use steakout.Prelude.{
  ℕ, Text, text, Bool, true, false, ◌&&◌, ◌||◌, [], ◌∷◌, map, leb, ◌==◌, ◌+◌, if◌then◌else◌,
}
use steakout.Prelude.{Option}
use steakout.Prelude.Js.{Num, NumField}
use steakout.Api.{ApiError, rpc_unavailable, rpc_malformed, rpc_method_error, api_error}

pub data RpcErrorCode : Type 0 where
  unavailable malformed method_error : RpcErrorCode

-- What a call throws: an `RpcError`, another `Error`, or a value that is no `Error` and the text
-- that `String` makes of it.
pub data Failure : Type 0 where
  rpc_error : RpcErrorCode → Text → Failure
  error : Text → Failure
  thrown : Text → Failure

pub data Reply {ℓ} (A : Type ℓ) : Type ℓ where
  returned : A → Reply A
  failed : Failure → Reply A

-- `error instanceof Error ? error.message : String(error)`
abbrev pub message : Failure → Text
message (rpc_error c m) = m
message (error m) = m
message (thrown m) = m

unfoldable pub to_rpc_api_error : Failure → ApiError
to_rpc_api_error (rpc_error unavailable m) = api_error 503 rpc_unavailable
to_rpc_api_error (rpc_error malformed m) = api_error 502 rpc_malformed
to_rpc_api_error (rpc_error method_error m) = api_error 502 rpc_method_error
to_rpc_api_error (error m) = api_error 503 rpc_unavailable
to_rpc_api_error (thrown m) = api_error 503 rpc_unavailable

unfoldable pub to_lower : ℕ → ℕ
to_lower c = if leb b'A' c && leb c b'Z' then c + 32 else c

unfoldable pub starts_with : Text → Text → Bool
starts_with [] s = true
starts_with (p ∷ ps) [] = false
starts_with (p ∷ ps) (c ∷ s) = p == c && starts_with ps s

unfoldable pub contains : Text → Text → Bool
unfolding starts_with
contains p [] = starts_with p []
contains p (c ∷ s) = starts_with p (c ∷ s) || contains p s

-- `/no staker with address/i.test(message)`
unfoldable pub is_staker_not_found_error : Text → Bool
unfolding contains to_lower
is_staker_not_found_error m = contains (text "no staker with address") (map to_lower m)

-- `hash.replace(/^0x/i, '').toLowerCase()`
unfoldable pub without_prefix : Text → Text
without_prefix (z ∷ x ∷ rest) = if z == b'0' && (x == b'x' || x == b'X') then rest else z ∷ x ∷ rest
without_prefix t = t

unfoldable pub normalize_tx_hash : Text → Text
unfolding without_prefix to_lower
normalize_tx_hash hash = map to_lower (without_prefix hash)

-- The fields of a `NimiqAccount` that are read; a `sender` that is no text is `none`.
pub record Account : Type 0 where
  pub address : Text
  pub balance : NumField
  pub account_type : Text
  pub sender : Option Text

-- The fields of a `NimiqTransaction` that are read.
pub record Transaction : Type 0 where
  pub hash : Text
  pub from : Text
  pub to : Text
  pub value : Num
  pub execution_result : Bool
  pub block_number : NumField
