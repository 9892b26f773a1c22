-- ===== src/Ratelimit/Entries.antt =====
-- Which classes have a token bucket.
use helius.Common.{ℕ, zero, suc, none, some, ◌≡◌, ◌==◌, nat_eq, if◌then◌else◌, arith}
use helius.Common.Map.{Map, lookup, lookup-insert}
use helius.Config.{RpsConfig}
use helius.Credits.{
  MethodClass, standard_rpc, send_transaction, get_program_accounts, das, zk, class_eq,
}
use helius.Ratelimit.Buckets.{Governor, insert, build_limiters}

-- The configured rate of a class.
unfoldable pub rate : RpsConfig → MethodClass → ℕ
rate rps standard_rpc = rps.standard_rpc
rate rps send_transaction = rps.send_transaction
rate rps get_program_accounts = rps.get_program_accounts
rate rps das = rps.das
rate rps zk = rps.zk

module _ {Limiter : Type 0} (g : Governor Limiter) where
  lookup-bucket :
      (m : Map MethodClass Limiter) (class c : MethodClass) (rps : ℕ)
      → lookup c (insert g m class rps) ≡ (
          if rps == 0 then lookup c m else (if class == c then some (g.direct rps) else lookup c m))
  unfolding insert
  lookup-bucket m class c zero = ground arith
  lookup-bucket m class c (suc n) = ground (arith, lookup-insert class c (g.direct (suc n)) m)

  -- Every class with a rate above 0 has a fresh bucket of that rate, and no other class has one.
  pub lookup-build_limiters :
      (rps : RpsConfig) (c : MethodClass)
      → lookup c (build_limiters g rps)
        ≡ (if rate rps c == 0 then none else some (g.direct (rate rps c)))
  unfolding build_limiters rate lookup
  lookup-build_limiters rps standard_rpc = simp lookup-bucket (ground arith)
  lookup-build_limiters rps send_transaction = simp lookup-bucket (ground arith)
  lookup-build_limiters rps get_program_accounts = simp lookup-bucket (ground arith)
  lookup-build_limiters rps das = simp lookup-bucket (ground arith)
  lookup-build_limiters rps zk = simp lookup-bucket (ground arith)
