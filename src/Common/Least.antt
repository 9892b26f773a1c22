-- ===== src/Common/Least.antt =====
-- Iterator::min_by_key.
use Prim.Native.Nat.{ℕ, ◌≤◌}
use mathlib.Core.Path.{◌≡◌, refl}
use mathlib.Core.Logic.{◌⊎◌, inl}
use mathlib.Core.List.{List, [], ◌∷◌}
use mathlib.Core.Option.{Option, none, some}
use native.Mathlib.Omega.{arith}
use helius.Common.Test.{if◌then◌else◌, ltb}
use helius.Common.Lists.{All, Any}

module _ {A : Type 0} where
  min_from : (A → ℕ) → A → List A → A
  min_from key best [] = best
  min_from key best (x ∷ xs) = min_from key (if ltb (key x) (key best) then x else best) xs

  -- Iterator::min_by_key: the first of the items with the least key.
  unfoldable pub min_by_key : (A → ℕ) → List A → Option A
  unfolding min_from
  min_by_key key [] = none
  min_by_key key (x ∷ xs) = some (min_from key x xs)

  min_from-le :
      (key : A → ℕ) (best : A) (xs : List A)
      → (key (min_from key best xs) ≤ key best) × All (λ x. key (min_from key best xs) ≤ key x) xs
  unfolding min_from
  min_from-le key best [] = (omega arith, tt)
  min_from-le key best (x ∷ xs) =
      let ih = min_from-le key (if ltb (key x) (key best) then x else best) xs in
      (ground (arith, ih.0), (ground (arith, ih.0), ih.1))

  min_from-mem :
      (key : A → ℕ) (best : A) (xs : List A)
      → (min_from key best xs ≡ best) ⊎ Any (λ x. min_from key best xs ≡ x) xs
  unfolding min_from
  min_from-mem key best [] = inl refl
  min_from-mem key best (x ∷ xs) =
      let ih = min_from-mem key (if ltb (key x) (key best) then x else best) xs in
      ground (arith, ih)

  -- The chosen item is in the list, and no item has a smaller key.
  pub min_by_key_lem :
      (key : A → ℕ) (x : A) (xs : List A)
      → (a : A) × (min_by_key key (x ∷ xs) ≡ some a)
        × Any (λ y. a ≡ y) (x ∷ xs)
        × All (λ y. key a ≤ key y) (x ∷ xs)
  unfolding min_by_key
  min_by_key_lem key x xs = (min_from key x xs, refl, min_from-mem key x xs, min_from-le key x xs)
