-- ===== src/Pool/Rotation.antt =====
-- The positions of a scan: it visits every index below n exactly once, while the cursor has not come
-- within n of the largest usize.
use Prim.Native.Nat.{ℕ}
use native.Mathlib.Nat.{mod-lt, mod-eq_of_lt, mod-add-mod, mod-eq-sub-mod}
use helius.Common.{
  ◌+◌, ◌-◌, ◌%◌, ◌≤◌, ◌<◌, ◌≡◌, ◌≢◌, ap, sym, ◌∙◌, arith, add_u64, u64_mod, ltb, leb, ltb→lt, ◌⊎◌,
  if◌then◌else◌, Bool-cases, inl, inr,
}

-- Adding less than n to a number adds it to the remainder, once around at most.
mod_step : (a k n : ℕ) → k < n → ((a + k) % n ≡ a % n + k) ⊎ ((a + k) % n + n ≡ a % n + k)
mod_step a k n h = elim (Bool-cases (ltb (a % n + k) n)) [
  | inl small ↦ inl (sym (mod-add-mod a n k) ∙ mod-eq_of_lt (ltb→lt (a % n + k) n small))
  | inr large ↦
      let reach : n ≤ a % n + k = ground arith in
      let rest = mod-eq-sub-mod reach in
      let below : a % n + k - n < n = omega (arith, mod-lt a {m = n}) in
      inr (omega (arith, mod-add-mod a n k, rest, mod-eq_of_lt below))
]

abbrev pub visited : (n base off : ℕ) → ℕ
visited n base off = add_u64 base off % n

pub visited-lt : (n base off : ℕ) → 0 < n → visited n base off < n
visited-lt n base off h = omega arith

-- Two positions less than a round apart visit different indices.
pub visited-ne :
    (n base i j : ℕ) → base + j < u64_mod → i < j → j < i + n → visited n base j ≢ visited n base i
visited-ne n base i j small lt near e = omega (
  arith,
  mod_step (base + i) (j - i) n (omega arith),
  plain j (omega arith),
  plain i (omega arith),
  ap (λ a. a % n) apart,
)
  where
    plain : (k : ℕ) → base + k < u64_mod → visited n base k ≡ (base + k) % n
    plain k h = ap (λ a. a % n) (mod-eq_of_lt h)

    apart : base + i + (j - i) ≡ base + j
    apart = omega arith

-- Every index is visited in the first round.
pub visited_onto :
    (n base i : ℕ) → base + n ≤ u64_mod → i < n → (off : ℕ) × (off < n) × (visited n base off ≡ i)
visited_onto n base i small lt =
    let r = base % n in
    let off : ℕ = if leb r i then i - r else i + n - r in
    let bound : r < n = mod-lt base (omega arith) in
    let off_lt : off < n = ground arith in
    (
      off,
      off_lt,
      ap (λ a. a % n) (mod-eq_of_lt (let k = off_lt in omega arith))
          ∙ ground (arith, mod_step base off n off_lt, mod-lt (base + off) {m = n}),
    )
