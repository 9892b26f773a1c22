-- ===== src/Upstream/Calendar.antt =====
-- `current_yyyymm` and `current_yyyymmdd` of src/upstream.rs, for the date that the clock shows.
use helius.Common.{ℕ, ◌≡◌, ◌+◌, ◌*◌, ◌/◌, ◌%◌, ◌≤◌, arith, u32_mod}

unfoldable pub current_yyyymm : (year month : ℕ) → ℕ
current_yyyymm year month = (year * 100 + month) % u32_mod

unfoldable pub current_yyyymmdd : (year month day : ℕ) → ℕ
current_yyyymmdd year month day = (year * 10_000 + month * 100 + day) % u32_mod

-- The number of a day holds its date, and the number of its month, up to the year 9999: no two days have
-- one number, and a day's month changes exactly when the number without its last two digits does.
pub current_yyyymmdd-date :
    (year month day : ℕ)
    → year ≤ 9_999
    → month ≤ 12
    → day ≤ 31
    → let n = current_yyyymmdd year month day in
      (n / 100 ≡ current_yyyymm year month)
      × (n / 10_000 ≡ year)
      × (n / 100 % 100 ≡ month)
      × (n % 100 ≡ day)
unfolding current_yyyymm current_yyyymmdd
current_yyyymmdd-date year month day years months days =
    (omega arith, omega arith, omega arith, omega arith)
