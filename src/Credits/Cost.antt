-- ===== src/Credits/Cost.antt =====
-- `CostTable` of src/credits.rs.
use helius.Common.{ℕ, String, none, some, string_eq, []}
use helius.Common.Map.{Map, lookup, insert, insert_all}
use helius.Config.{CostsConfig}
use helius.Credits.Class.{classify, default_cost}

pub record CostTable : Type 0 where
  pub overrides : Map String ℕ
  pub default_rest_cost : ℕ

unfoldable pub from_config : CostsConfig → CostTable
from_config c = record {
  overrides =
      insert_all c.overrides (insert "getValidityProofs" 100 (insert "getValidityProof" 100 []));
  default_rest_cost = c.default_rest_cost;
}

unfoldable pub cost_of : CostTable → String → ℕ
cost_of t method = elim (lookup method t.overrides) [
  | some c ↦ c
  | none ↦ default_cost (classify method)
]
