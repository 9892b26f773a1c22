-- ===== src/Error.antt =====
-- `ProxyError` of src/error.rs and what its response carries.
use helius.Common.{ℕ, String, Option, none, string_eq}
use helius.Common.Text.{append}
use helius.Common.Int.{ℤ, negsuc}

pub data ProxyError : Type 0 where
  unauthorized : ProxyError
  payload_too_large : ProxyError
  all_upstreams_exhausted : (retry_after_secs : Option ℕ) → ProxyError
  bad_gateway : String → ProxyError

-- A `Result` whose error is a `ProxyError`.
pub data Result (A : Type 0) : Type 0 where
  ok : A → Result A
  err : ProxyError → Result A

unfoldable pub status : ProxyError → ℕ
status unauthorized = 401
status payload_too_large = 413
status (all_upstreams_exhausted secs) = 429
status (bad_gateway e) = 502

unfoldable pub rpc_code : ProxyError → ℤ
rpc_code unauthorized = negsuc 32_000
rpc_code payload_too_large = negsuc 32_599
rpc_code (all_upstreams_exhausted secs) = negsuc 32_004
rpc_code (bad_gateway e) = negsuc 32_602

-- The `#[error("…")]` attributes.
unfoldable pub to_string : ProxyError → String
unfolding append
to_string unauthorized = "unauthorized"
to_string payload_too_large = "payload too large"
to_string (all_upstreams_exhausted secs) = "all upstreams exhausted"
to_string (bad_gateway e) = append "bad gateway: " e

-- A response of the gateway's own: its status, the code and the message of its JSON-RPC error, whose id
-- is null, and the number in its Retry-After header.
pub record ErrorResponse : Type 0 where
  pub status : ℕ
  pub code : ℤ
  pub message : String
  pub retry_after : Option ℕ

-- The number of seconds is in decimal digits, so that `HeaderValue::from_str` takes it.
unfoldable pub retry_after_of : ProxyError → Option ℕ
retry_after_of unauthorized = none
retry_after_of payload_too_large = none
retry_after_of (all_upstreams_exhausted secs) = secs
retry_after_of (bad_gateway e) = none

unfoldable pub into_response : ProxyError → ErrorResponse
into_response e = record {
  status = status e;
  code = rpc_code e;
  message = to_string e;
  retry_after = retry_after_of e;
}
