-- ===== src/Config/Load.antt =====
-- `Config::load` and `Config::from_toml_str` of src/config.rs. What figment extracts from the file and the
-- environment, and what toml reads from a text, are parameters.
use helius.Common.{String, Option, none, some}
use helius.Config.Schema.{Config}
use helius.Config.Validate.{ConfigError, validate}

pub data Loading : Type 0 where
  loaded : Config → Loading
  not_extracted : Loading
  invalid : ConfigError → Loading

-- From `let cfg: Config = …?;` on.
unfoldable pub checked : Option Config → Loading
checked none = not_extracted
checked (some cfg) = elim (validate cfg) [ some e ↦ invalid e | none ↦ loaded cfg ]

unfoldable pub load : (String → Option Config) → (path : String) → Loading
load extract path = checked (extract path)

unfoldable pub from_toml_str : (String → Option Config) → String → Loading
from_toml_str from_str s = checked (from_str s)
