-- ===== src/Credits/Table.antt =====
-- The cost table and the classes, against the credit table that the comments of src/credits.rs name.
use helius.Common.{
  String, List, Option-cases, true, false, ◌≡◌, ◌↔◌, ◌==◌, refl, arith, string_eq, inl, inr, All,
  ◌∷◌, [], contains, ◌<◌, u32_mod,
}
use text.Mathlib.TextEquality.{eq_iff}
use helius.Common.Map.{Map, lookup, insert, lookup-All, All-insert_all}
use helius.Config.{CostsConfig}
use helius.Credits.Class.{
  MethodClass, send_transaction, get_program_accounts, das, zk, classify, is_das, is_zk,
  das_methods, zk_methods, default_cost,
}
use helius.Credits.Cost.{CostTable, from_config, cost_of}

-- A name that a list does not hold, and whether two lists of names share one.
contains_ne :
    (xs : List String) (m k : String)
    → contains xs k ≡ false
    → (m == k) ≡ true
    → contains xs m ≡ false
contains_ne xs m k h e = rw ((eq_iff m k).0 e) h

contains_disjoint :
    (xs ys : List String) (m : String)
    → All (λ x. contains ys x ≡ false) xs
    → contains xs m ≡ true
    → contains ys m ≡ false
contains_disjoint [] ys m a h = ground arith
contains_disjoint (x ∷ xs) ys m a h =
    ground (arith, contains_ne ys m x, contains_disjoint xs ys m a.1)

-- No method belongs to two of the classes.
is_das-is_zk : (m : String) → is_das m ≡ true → is_zk m ≡ false
unfolding is_das is_zk
is_das-is_zk m = contains_disjoint das_methods zk_methods m (ground arith)

is_das_ne : (m k : String) → is_das k ≡ false → (m == k) ≡ true → is_das m ≡ false
unfolding is_das
is_das_ne = contains_ne das_methods

is_zk_ne : (m k : String) → is_zk k ≡ false → (m == k) ≡ true → is_zk m ≡ false
unfolding is_zk
is_zk_ne = contains_ne zk_methods

accounts_ne_send :
    (m : String) → (m == "getProgramAccounts") ≡ true → (m == "sendTransaction") ≡ false
accounts_ne_send m e = rw ((eq_iff m "getProgramAccounts").0 e) refl

special_methods :
    (is_das "sendTransaction" ≡ false)
    × (is_das "getProgramAccounts" ≡ false)
    × (is_zk "sendTransaction" ≡ false)
    × (is_zk "getProgramAccounts" ≡ false)
unfolding is_das is_zk
special_methods = (refl, refl, refl, refl)

-- The order of the tests in `classify` does not matter: each class other than the standard one is
-- decided by its own test alone.
pub classify_iff :
    (m : String)
    → ((classify m ≡ send_transaction) ↔ (m ≡ "sendTransaction"))
      × ((classify m ≡ get_program_accounts) ↔ (m ≡ "getProgramAccounts"))
      × ((classify m ≡ das) ↔ (is_das m ≡ true))
      × ((classify m ≡ zk) ↔ (is_zk m ≡ true))
unfolding classify
classify_iff m =
    let (d1, d2, z1, z2) = special_methods in
    ground (
      arith,
      eq_iff m "sendTransaction",
      eq_iff m "getProgramAccounts",
      accounts_ne_send m,
      is_das-is_zk m,
      is_das_ne m "sendTransaction" d1,
      is_das_ne m "getProgramAccounts" d2,
      is_zk_ne m "sendTransaction" z1,
      is_zk_ne m "getProgramAccounts" z2,
    )

-- Every cost is a u32.
abbrev pub IsTable : CostTable → Type 0
IsTable t = All (λ b. b.1 < u32_mod) t.overrides × (t.default_rest_cost < u32_mod)

default_cost-lt : (c : MethodClass) → default_cost c < u32_mod
unfolding default_cost
default_cost-lt c = ground arith

pub cost_of-lt : (t : CostTable) (m : String) → IsTable t → cost_of t m < u32_mod
unfolding cost_of
cost_of-lt t m h = elim (Option-cases (lookup m t.overrides)) [
  | inl missing ↦ rw (missing, cost_of) (default_cost-lt (classify m))
  | inr (v, found) ↦ rw (found, cost_of) (lookup-All (λ v. v < u32_mod) m t.overrides v h.0 found)
]

pub from_config-IsTable :
    (c : CostsConfig)
    → All (λ b. b.1 < u32_mod) c.overrides
    → c.default_rest_cost < u32_mod
    → IsTable (from_config c)
unfolding from_config insert
from_config-IsTable c h r = (All-insert_all (λ v. v < u32_mod) c.overrides _ h (omega arith), r)
