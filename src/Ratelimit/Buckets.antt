-- ===== src/Ratelimit/Buckets.antt =====
-- `build_limiters` of src/ratelimit.rs. A token bucket is the governor crate's: its type and its two
-- operations are a parameter.
use helius.Common.{ℕ, Bool, [], ◌==◌, nat_eq, if◌then◌else◌}
use helius.Common.Map.{Map}
use helius.Common.Map as Map
use helius.Config.{RpsConfig}
use helius.Credits.{
  MethodClass, standard_rpc, send_transaction, get_program_accounts, das, zk, class_eq,
}

-- `RateLimiter::direct(Quota::per_second(n))` for an n above 0, and `check` at a reading of the crate's
-- clock, which tells whether there was a token and leaves the bucket after the request.
pub record Governor (Limiter : Type 0) : Type 0 where
  pub direct : ℕ → Limiter
  pub check : ℕ → Limiter → Bool × Limiter

module _ {Limiter : Type 0} (g : Governor Limiter) where
  unfoldable pub insert : Map MethodClass Limiter → MethodClass → ℕ → Map MethodClass Limiter
  insert m class rps = if rps == 0 then m else Map.insert class (g.direct rps) m

  unfoldable pub build_limiters : RpsConfig → Map MethodClass Limiter
  build_limiters rps =
      let m0 : Map MethodClass Limiter = [] in
      let m1 = insert m0 standard_rpc rps.standard_rpc in
      let m2 = insert m1 send_transaction rps.send_transaction in
      let m3 = insert m2 get_program_accounts rps.get_program_accounts in
      let m4 = insert m3 das rps.das in insert m4 zk rps.zk
