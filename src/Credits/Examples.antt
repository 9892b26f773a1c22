-- ===== src/Credits/Examples.antt =====
-- Tests and instances for src/credits.rs.
use helius.Common.{String, none, some, [], ◌∷◌, List, ◌≡◌, refl, arith, inl, All, Any, sum, map}
use helius.Common.{true, ◌↔◌}
use helius.Common.Map.{lookup, insert_all, insert}
use helius.Config.{CostsConfig, default_costs}
use helius.Credits.Class.{
  classify, is_das, is_zk, default_cost, das, zk, send_transaction, get_program_accounts,
}
use helius.Credits.Cost.{CostTable, from_config, cost_of}
use helius.Credits.Parse.{
  batch, single, non_json_rpc, RpcCall, Serde, parse_body, request_cost, primary_class, methods,
  first_non_ws, batch_of, single_of, call_methods,
}
use helius.Credits.Choice.{IsAsStrictAs, primary_class-batch}
use helius.Credits.Table.{classify_iff, IsTable, from_config-IsTable}
use helius.Credits.Estimate.{request_cost-methods}
use helius.Credits.Body.{SkipsWhitespace, parse_body-whitespace}

abbrev table : CostTable
table = from_config default_costs

abbrev raised : CostsConfig
raised = record default_costs { overrides = ("getBalance", 7) ∷ [] }

-- A decoder that finds a fixed answer behind any white space.
abbrev pair_of_calls : List RpcCall
pair_of_calls = record { method = some "getBalance" } ∷ record { method = none } ∷ []

abbrev decoder : Serde
decoder = record {
  calls_from_slice = λ body. some pair_of_calls;
  call_from_slice = λ body. some (record { method = some "getSlot" });
}

costs :
    (cost_of table "getBalance" ≡ 1)
    × (cost_of table "getAssetsByOwner" ≡ 10)
    × (cost_of table "getValidityProofs" ≡ 100)
    × (cost_of (from_config raised) "getBalance" ≡ 7)
unfolding cost_of from_config lookup insert insert_all classify is_das is_zk default_cost
costs = (refl, refl, refl, refl)

abbrev asset : String
asset = "getAsset"

classify_iff_example :
    ((classify asset ≡ send_transaction) ↔ (asset ≡ "sendTransaction"))
    × ((classify asset ≡ get_program_accounts) ↔ (asset ≡ "getProgramAccounts"))
    × ((classify asset ≡ das) ↔ (is_das asset ≡ true))
    × ((classify asset ≡ zk) ↔ (is_zk asset ≡ true))
classify_iff_example = classify_iff asset

primary_class-batch_example :
    Any
      (λ x. primary_class (batch ("getSlot" ∷ "sendTransaction" ∷ [])) ≡ classify x)
      ("getSlot" ∷ "sendTransaction" ∷ [])
    × All
        (λ x.
          IsAsStrictAs (primary_class (batch ("getSlot" ∷ "sendTransaction" ∷ []))) (classify x))
        ("getSlot" ∷ "sendTransaction" ∷ [])
    × All
        (λ (x : String).
          x ≡ "sendTransaction"
          → primary_class (batch ("getSlot" ∷ "sendTransaction" ∷ [])) ≡ send_transaction)
        ("getSlot" ∷ "sendTransaction" ∷ [])
primary_class-batch_example = primary_class-batch "getSlot" ("sendTransaction" ∷ [])

table-IsTable : IsTable table
table-IsTable = from_config-IsTable default_costs tt (omega arith)

request_cost-methods_example :
    request_cost (batch ("getBalance" ∷ "getSlot" ∷ [])) table
    ≡ sum (map (λ m. cost_of table m) ("getBalance" ∷ "getSlot" ∷ []))
unfolding methods
request_cost-methods_example =
    request_cost-methods table (batch ("getBalance" ∷ "getSlot" ∷ [])) table-IsTable (λ e. cc)
      (omega arith)

decoded : parse_body decoder "/" (b'[' ∷ []) ≡ batch ("getBalance" ∷ [])
unfolding parse_body first_non_ws batch_of call_methods
decoded = refl

rest_path : parse_body decoder "/v0/transactions" (b'{' ∷ []) ≡ non_json_rpc
unfolding parse_body
rest_path = refl

single_decoded : parse_body decoder "/" (b'{' ∷ []) ≡ single "getSlot"
unfolding parse_body first_non_ws single_of
single_decoded = refl

decoder-SkipsWhitespace : SkipsWhitespace decoder
decoder-SkipsWhitespace = record { calls = λ w body h. refl; call = λ w body h. refl }

parse_body-whitespace_example :
    parse_body decoder "/" (32 ∷ b'[' ∷ []) ≡ parse_body decoder "/" (b'[' ∷ [])
parse_body-whitespace_example =
    parse_body-whitespace decoder "/" 32 (b'[' ∷ []) decoder-SkipsWhitespace (inl refl)
