-- ===== src/Common/Sum.antt =====
-- Sums of u64 values, as `Iterator::sum` makes them: from the left, wrapping.
use helius.Common.Lists.{length, All}
use helius.Common.Word.{add_u64, u64_mod, u32_mod}
use Prim.Native.Nat.{ℕ, ◌+◌, ◌*◌, ◌-◌, ◌%◌, ◌≤◌, ◌<◌}
use mathlib.Core.Path.{◌≡◌}
use mathlib.Core.List.{List, [], ◌∷◌, ◌++◌, map}
use native.Mathlib.Omega.{arith}

pub sum_from : ℕ → List ℕ → ℕ
sum_from acc [] = acc
sum_from acc (x ∷ xs) = sum_from (add_u64 acc x) xs

unfoldable pub sum_u64 : List ℕ → ℕ
unfolding sum_from
sum_u64 xs = sum_from 0 xs

-- The exact sum.
abbrev pub sum : List ℕ → ℕ
sum [] = 0
sum (x ∷ xs) = x + sum xs

sum_from_lem : (acc : ℕ) (xs : List ℕ) → acc < u64_mod → sum_from acc xs ≡ (acc + sum xs) % u64_mod
unfolding sum_from
sum_from_lem acc [] h = omega arith
sum_from_lem acc (x ∷ xs) h = omega (arith, sum_from_lem ((acc + x) % u64_mod) xs (omega arith))

pub sum_u64_lem : (xs : List ℕ) → sum_u64 xs ≡ sum xs % u64_mod
unfolding sum_u64
sum_u64_lem xs = omega (arith, sum_from_lem 0 xs (omega arith))

pub sum_u64_exact : (xs : List ℕ) → sum xs < u64_mod → sum_u64 xs ≡ sum xs
sum_u64_exact xs h = omega (arith, sum_u64_lem xs)

pub sum-append : (xs ys : List ℕ) → sum (xs ++ ys) ≡ sum xs + sum ys
sum-append [] ys = omega arith
sum-append (x ∷ xs) ys = omega (arith, sum-append xs ys)

pub sum-map-append {ℓ} :
    {A : Type ℓ} (f : A → ℕ) (xs : List A) (x : A)
    → sum (map f (xs ++ x ∷ [])) ≡ sum (map f xs) + f x
sum-map-append f [] x = omega arith
sum-map-append f (y ∷ xs) x = omega (arith, sum-map-append f xs x)

-- Fewer than 2^32 words of 32 bits add up to less than 2^64.
sum-le-mul : (xs : List ℕ) → All (λ x. x < u32_mod) xs → sum xs ≤ length xs * (u32_mod - 1)
sum-le-mul [] h = omega arith
sum-le-mul (x ∷ xs) h = omega (arith, sum-le-mul xs h.1)

pub sum-lt-u64 : (xs : List ℕ) → All (λ x. x < u32_mod) xs → length xs < u32_mod → sum xs < u64_mod
sum-lt-u64 xs h small = omega (arith, sum-le-mul xs h)
