-- ===== src/Credits/Estimate.antt =====
-- The estimate that a request is charged.
use helius.Common.{
  ℕ, String, ◌≡◌, ◌≢◌, ◌<◌, ◌+◌, refl, List, [], ◌∷◌, ◌++◌, map, All, length, sum, sum_u64_exact,
  sum-lt-u64, sum-append, length-append, u32_mod, u64_mod, arith, ap,
}
use mathlib.Core.List.{map-append}
use helius.Credits.Cost.{CostTable, cost_of}
use helius.Credits.Table.{IsTable, cost_of-lt}
use helius.Credits.Parse.{Parsed, single, batch, non_json_rpc, request_cost, methods}

abbrev costs : CostTable → List String → List ℕ
costs t ms = map (λ m. cost_of t m) ms

costs-lt : (t : CostTable) (ms : List String) → IsTable t → All (λ x. x < u32_mod) (costs t ms)
costs-lt t [] h = tt
costs-lt t (m ∷ ms) h = (cost_of-lt t m h, costs-lt t ms h)

length-costs : (t : CostTable) (ms : List String) → length (costs t ms) ≡ length ms
length-costs t [] = refl
length-costs t (m ∷ ms) = omega (arith, length-costs t ms)

sum-costs-lt :
    (t : CostTable) (ms : List String)
    → IsTable t
    → length ms < u32_mod
    → sum (costs t ms) < u64_mod
sum-costs-lt t ms h small =
    sum-lt-u64 (costs t ms) (costs-lt t ms h) (omega (arith, length-costs t ms))

-- A JSON-RPC request of fewer than 2^32 calls is charged the exact sum of the costs of the methods
-- that are tallied for it: the u64 sum does not wrap.
pub request_cost-methods :
    (t : CostTable) (p : Parsed)
    → IsTable t
    → p ≢ non_json_rpc
    → length (methods p) < u32_mod
    → request_cost p t ≡ sum (map (λ m. cost_of t m) (methods p))
unfolding request_cost methods
request_cost-methods t (single m) h n small = omega arith
request_cost-methods t (batch ms) h n small = sum_u64_exact (costs t ms) (sum-costs-lt t ms h small)
request_cost-methods t non_json_rpc h n small = absurd (n refl)

-- Two batches sent as one are charged what they are charged one after the other.
pub request_cost-append :
    (t : CostTable) (ms ns : List String)
    → IsTable t
    → length (ms ++ ns) < u32_mod
    → request_cost (batch (ms ++ ns)) t ≡ request_cost (batch ms) t + request_cost (batch ns) t
unfolding methods
request_cost-append t ms ns h small = omega (
  arith,
  exact (ms ++ ns) small,
  exact ms (omega (arith, length-append {0} ms ns)),
  exact ns (omega (arith, length-append {0} ms ns)),
  ap sum (map-append (λ m. cost_of t m) ms ns),
  sum-append (costs t ms) (costs t ns),
)
  where
    exact : (xs : List String) → length xs < u32_mod → request_cost (batch xs) t ≡ sum (costs t xs)
    exact xs lt = request_cost-methods t (batch xs) h (λ e. cc) lt
