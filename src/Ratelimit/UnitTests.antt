-- ===== src/Ratelimit/UnitTests.antt =====
-- The unit tests of src/ratelimit.rs, as functions into Bool.
use helius.Common.{
  ℕ, Bool, true, false, not, ◌&&◌, ◌-◌, ◌==◌, nat_eq, leb, none, some, List, [], ◌∷◌, ◌≡◌, refl,
}
use helius.Common.Map.{Map, lookup, insert as insert_entry}
use helius.Config.{RpsConfig}
use helius.Credits.{MethodClass, standard_rpc, send_transaction, class_eq}
use helius.Ratelimit.Backoff.{backoff_with_jitter, backoff_base}
use helius.Ratelimit.Buckets.{Governor, build_limiters, insert}

unfoldable pub backoff_grows_and_caps : Bool
backoff_grows_and_caps =
    (backoff_with_jitter 0 0 == 1000 - 250)
    && (backoff_with_jitter 1 0 == 2000 - 500)
    && (backoff_with_jitter 9 0 == 30_000 - 7_500)

abbrev all_of : List ℕ → (ℕ → Bool) → Bool
all_of [] test = true
all_of (n ∷ ns) test = test n && all_of ns test

unfoldable pub jitter_stays_within_band : Bool
jitter_stays_within_band =
    all_of (1 ∷ 7 ∷ 123 ∷ 999 ∷ 50_000 ∷ [])
      (λ now. let d = backoff_with_jitter 2 now in leb 3000 d && leb d 5000)

module _ {Limiter : Type 0} (g : Governor Limiter) where
  abbrev contains_key : MethodClass → Map MethodClass Limiter → Bool
  contains_key class m = elim (lookup class m) [ some _ ↦ true | none ↦ false ]

  unfoldable pub limiters_respect_zero_as_unlimited : Bool
  limiters_respect_zero_as_unlimited =
      let rps : RpsConfig = record {
        standard_rpc = 0;
        send_transaction = 1;
        get_program_accounts = 5;
        das = 2;
        zk = 2;
      } in
      let m = build_limiters g rps in
      not (contains_key standard_rpc m) && contains_key send_transaction m

backoff_grows_and_caps_passes : backoff_grows_and_caps ≡ true
unfolding backoff_grows_and_caps backoff_with_jitter backoff_base
backoff_grows_and_caps_passes = refl

jitter_stays_within_band_passes : jitter_stays_within_band ≡ true
unfolding jitter_stays_within_band backoff_with_jitter backoff_base
jitter_stays_within_band_passes = refl

limiters_respect_zero_passes :
    {Limiter : Type 0} (g : Governor Limiter) → limiters_respect_zero_as_unlimited g ≡ true
unfolding limiters_respect_zero_as_unlimited build_limiters insert insert_entry lookup
limiters_respect_zero_passes g = refl
