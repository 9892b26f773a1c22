-- ===== src/Common/Map.antt =====
-- HashMap and BTreeMap as association lists: a look-up takes the first entry of its key, an insertion
-- replaces the entry of its key in place or adds one at the end. The order of entries is no part of
-- what the maps promise, and no theorem depends on it.
use mathlib.Core.Path.{◌≡◌, refl}
use mathlib.Core.Option.{Option, none, some}
use mathlib.Core.List.{List, [], ◌∷◌}
use native.Mathlib.Omega.{arith}
use mathlib.Core.Path.{subst}
use mathlib.Core.Logic.{inl, inr}
use helius.Common.Lists.{All}
use helius.Common.Test.{Bool-cases, Comparable, ◌==◌, if◌then◌else◌}

abbrev pub Map {ℓ} : Type ℓ → Type ℓ → Type ℓ
Map K V = List (K × V)

-- Option::or
abbrev pub or_else {ℓ} : {V : Type ℓ} → Option V → Option V → Option V
or_else none d = d
or_else (some v) d = some v

-- Option::unwrap_or
abbrev pub unwrap_or {ℓ} : {V : Type ℓ} → Option V → V → V
unwrap_or none d = d
unwrap_or (some v) d = v

module _ {ℓ} {K V : Type ℓ} ⦃c : Comparable K⦄ where
  unfoldable pub lookup : K → Map K V → Option V
  lookup k [] = none
  lookup k (b ∷ m) = if b.0 == k then some b.1 else lookup k m

  unfoldable pub insert : K → V → Map K V → Map K V
  insert k v [] = (k, v) ∷ []
  insert k v (b ∷ m) = if b.0 == k then (k, v) ∷ m else b ∷ insert k v m

  -- `for (k, v) in &other { m.insert(k.clone(), *v); }`
  unfoldable pub insert_all : Map K V → Map K V → Map K V
  unfolding insert
  insert_all [] m = m
  insert_all (b ∷ other) m = insert_all other (insert b.0 b.1 m)

  pub lookup-insert :
      (k j : K) (v : V) (m : Map K V)
      → lookup j (insert k v m) ≡ (if k == j then some v else lookup j m)
  unfolding lookup insert
  lookup-insert k j v [] = refl
  lookup-insert k j v (b ∷ m) =
      ground (lookup-insert k j v m, c.decides b.0 k, c.decides b.0 j, c.decides k j, arith)

  -- The keys of a real map are distinct.
  abbrev pub HasDistinctKeys : Map K V → Type ℓ
  HasDistinctKeys [] = Unit
  HasDistinctKeys ((k, v) ∷ m) = (lookup k m ≡ none) × HasDistinctKeys m

  -- Entries that are inserted last win.
  pub lookup-insert_all :
      (j : K) (other m : Map K V)
      → HasDistinctKeys other
      → lookup j (insert_all other m) ≡ or_else (lookup j other) (lookup j m)
  unfolding lookup insert_all
  lookup-insert_all j [] m d = refl
  lookup-insert_all j ((k, v) ∷ other) m (fresh, d) =
      ground
        (arith, lookup-insert_all j other (insert k v m) d, lookup-insert k j v m, c.decides k j)

-- What holds of every value of a map holds of what is looked up, and survives insertions.
module _ {ℓ} {K V : Type ℓ} ⦃c : Comparable K⦄ (P : V → Type 0) where
  pub lookup-All : (k : K) (m : Map K V) (v : V) → All (λ b. P b.1) m → lookup k m ≡ some v → P v
  unfolding lookup
  lookup-All k [] v h found = ground arith
  lookup-All k ((j, w) ∷ m) v h found = elim (Bool-cases (j == k)) [
    | inl same ↦ let hit : some w ≡ some v = rw same at found in subst P (cc) h.0
    | inr other ↦ lookup-All k m v h.1 (rw other at found)
  ]

  All-insert :
      (k : K) (v : V) (m : Map K V) → P v → All (λ b. P b.1) m → All (λ b. P b.1) (insert k v m)
  unfolding insert
  All-insert k v [] p h = (p, tt)
  All-insert k v ((j, w) ∷ m) p h = elim (Bool-cases (j == k)) [
    | inl same ↦ rw same (p, h.1)
    | inr other ↦ rw other (h.0, All-insert k v m p h.1)
  ]

  pub All-insert_all :
      (other m : Map K V)
      → All (λ b. P b.1) other
      → All (λ b. P b.1) m
      → All (λ b. P b.1) (insert_all other m)
  unfolding insert_all
  All-insert_all [] m h k = k
  All-insert_all ((j, v) ∷ other) m h k =
      All-insert_all other (insert j v m) h.1 (All-insert j v m h.0 k)
