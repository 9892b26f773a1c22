-- ===== src/Credits/Parse.antt =====
-- `Parsed`, `parse_body` and the estimates of src/credits.rs. A body is a list of bytes. The JSON
-- decoder is serde_json's: the two instances of `from_slice` that the code calls are a parameter.
use text.Mathlib.Text.{starts_with}
use helius.Common.{
  ℕ, String, Bool, not, Option, none, some, List, [], ◌∷◌, ◌||◌, ◌==◌, nat_eq, map, if◌then◌else◌,
  find, is_empty, sum_u64, min_by_key,
}
use helius.Credits.Class.{MethodClass, standard_rpc, classify, restrictiveness}
use helius.Credits.Cost.{CostTable, cost_of}

pub data Parsed : Type 0 where
  single : String → Parsed
  batch : List String → Parsed
  non_json_rpc : Parsed

pub record RpcCall : Type 0 where
  pub method : Option String

-- `serde_json::from_slice::<Vec<RpcCall>>` and `serde_json::from_slice::<RpcCall>`; `none` is an error.
pub record Serde : Type 0 where
  pub calls_from_slice : List ℕ → Option (List RpcCall)
  pub call_from_slice : List ℕ → Option RpcCall

-- u8::is_ascii_whitespace
unfoldable pub is_ascii_whitespace : ℕ → Bool
is_ascii_whitespace b = b == b' ' || b == 9 || b == 10 || b == 12 || b == 13

unfoldable pub first_non_ws : List ℕ → Option ℕ
unfolding is_ascii_whitespace
first_non_ws body = find (λ b. not (is_ascii_whitespace b)) body

-- `calls.into_iter().filter_map(|c| c.method).collect()`
unfoldable pub call_methods : List RpcCall → List String
call_methods [] = []
call_methods (c ∷ calls) =
    let rest = call_methods calls in elim c.method [ some m ↦ m ∷ rest | none ↦ rest ]

unfoldable pub batch_of : Option (List RpcCall) → Parsed
batch_of none = non_json_rpc
batch_of (some calls) =
    let methods = call_methods calls in if is_empty methods then non_json_rpc else batch methods

unfoldable pub single_of : Option RpcCall → Parsed
single_of none = non_json_rpc
single_of (some c) = elim c.method [ some m ↦ single m | none ↦ non_json_rpc ]

unfoldable pub parse_body : Serde → String → List ℕ → Parsed
parse_body serde path body =
    if starts_with path "/v0/" || starts_with path "/v1/"
    then non_json_rpc
    else elim (first_non_ws body) [
      | none ↦ non_json_rpc
      | some b ↦
          if b == b'['
          then batch_of (serde.calls_from_slice body)
          else if b == b'{'
          then single_of (serde.call_from_slice body)
          else non_json_rpc
    ]

unfoldable pub request_cost : Parsed → CostTable → ℕ
request_cost (single method) t = cost_of t method
request_cost (batch methods) t = sum_u64 (map (λ m. cost_of t m) methods)
request_cost non_json_rpc t = t.default_rest_cost

abbrev pub class_or : Option MethodClass → MethodClass → MethodClass
class_or (some c) d = c
class_or none d = d

unfoldable pub primary_class : Parsed → MethodClass
primary_class (single method) = classify method
primary_class (batch methods) =
    class_or (min_by_key restrictiveness (map classify methods)) standard_rpc
primary_class non_json_rpc = standard_rpc

unfoldable pub methods : Parsed → List String
methods (single method) = method ∷ []
methods (batch ms) = ms
methods non_json_rpc = "other" ∷ []
