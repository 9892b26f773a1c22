-- ===== src/Ratelimit/Counting.antt =====
-- A concrete bucket, for the instances of the theorems over any governor.
use helius.Common.{ℕ, true, false, ◌-◌, ◌==◌, nat_eq, if◌then◌else◌}
use helius.Ratelimit.Buckets.{Governor}

-- A bucket that counts its tokens and is never filled again.
abbrev pub counting : Governor ℕ
counting = record {
  direct = λ n. n;
  check = λ clock tokens. if tokens == 0 then (false, 0) else (true, tokens - 1);
}
