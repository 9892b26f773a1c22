-- ===== src/Credits/UnitTests.antt =====
-- The unit tests of src/credits.rs, as functions into Bool. Those that decode a body take the decoder as an argument,
-- and run with any that reads the body as JSON.
use Prim.Native.Char.{code}
use Prim.Native.String as Native
use helius.Common.{
  ℕ, String, Bool, true, false, ◌&&◌, ◌==◌, nat_eq, string_eq, some, List, [], ◌∷◌, ◌≡◌, refl,
  sum_u64, min_by_key,
}
use helius.Common.Map.{lookup, insert_all, insert}
use helius.Config.{CostsConfig, default_costs}
use helius.Credits.Class.{
  class_eq, classify, restrictiveness, is_das, is_zk, default_cost, das, zk, send_transaction,
  get_program_accounts, standard_rpc,
}
use helius.Credits.Cost.{CostTable, from_config, cost_of}
use helius.Credits.Parse.{
  Parsed, batch, single, non_json_rpc, RpcCall, Serde, parse_body, request_cost, primary_class,
  first_non_ws, batch_of, single_of, call_methods,
}

-- The bytes of an ASCII text.
abbrev bytes : String → List ℕ
bytes Native.[] = []
bytes (Native.◌∷◌ c s) = code c ∷ bytes s

abbrev is_single : String → Parsed → Bool
is_single name (single method) = method == name
is_single name (batch methods) = false
is_single name non_json_rpc = false

abbrev is_non_json_rpc : Parsed → Bool
is_non_json_rpc (single method) = false
is_non_json_rpc (batch methods) = false
is_non_json_rpc non_json_rpc = true

unfoldable pub table : CostTable
table = from_config default_costs

unfoldable pub classifies_methods : Bool
classifies_methods =
    (classify "getBalance" == standard_rpc)
    && (classify "sendTransaction" == send_transaction)
    && (classify "getProgramAccounts" == get_program_accounts)
    && (classify "getAssetsByOwner" == das)
    && (classify "getValidityProofs" == zk)

unfoldable pub costs_follow_table : Bool
costs_follow_table =
    (cost_of table "getBalance" == 1)
    && (cost_of table "getProgramAccounts" == 10)
    && (cost_of table "getAssetsByOwner" == 10)
    && (cost_of table "getValidityProofs" == 100)

unfoldable pub config_override_wins : Bool
config_override_wins =
    let c : CostsConfig = record default_costs {
      overrides = insert "getBalance" 7 default_costs.overrides;
    } in
    cost_of (from_config c) "getBalance" == 7

abbrev slot_call : String
slot_call = "{\"jsonrpc\":\"2.0\",\"id\":1,\"method\":\"getSlot\"}"

abbrev accounts_batch : String
accounts_batch = "[{\"method\":\"getBalance\"},{\"method\":\"getProgramAccounts\"}]"

abbrev send_batch : String
send_batch = "[{\"method\":\"getBalance\"},{\"method\":\"sendTransaction\"}]"

abbrev spaced_call : String
spaced_call = "  \n {\"method\":\"getSlot\"}"

unfoldable pub parses_single : Serde → Bool
parses_single serde = is_single "getSlot" (parse_body serde "/" (bytes slot_call))

unfoldable pub parses_batch_and_sums_cost : Serde → Bool
parses_batch_and_sums_cost serde =
    let p = parse_body serde "/" (bytes accounts_batch) in
    (request_cost p table == 11) && (primary_class p == get_program_accounts)

unfoldable pub batch_picks_most_restrictive_class : Serde → Bool
batch_picks_most_restrictive_class serde =
    primary_class (parse_body serde "/" (bytes send_batch)) == send_transaction

unfoldable pub rest_path_is_non_jsonrpc : Serde → Bool
rest_path_is_non_jsonrpc serde =
    let p = parse_body serde "/v0/transactions" (bytes "{}") in
    is_non_json_rpc p && (request_cost p table == 100)

unfoldable pub leading_whitespace_ok : Serde → Bool
leading_whitespace_ok serde = is_single "getSlot" (parse_body serde "/" (bytes spaced_call))

abbrev call : String → RpcCall
call name = record { method = some name }

bundle : Unit {0}
unfolding table classify is_das is_zk default_cost cost_of from_config lookup insert_all insert
    parse_body first_non_ws batch_of single_of call_methods request_cost primary_class
    restrictiveness sum_u64 min_by_key
bundle = tt

classifies_methods_passes : classifies_methods ≡ true
unfolding bundle classifies_methods
classifies_methods_passes = refl

costs_follow_table_passes : costs_follow_table ≡ true
unfolding bundle costs_follow_table
costs_follow_table_passes = refl

config_override_wins_passes : config_override_wins ≡ true
unfolding bundle config_override_wins
config_override_wins_passes = refl

parses_single_passes :
    (serde : Serde)
    → serde.call_from_slice (bytes slot_call) ≡ some (call "getSlot")
    → parses_single serde ≡ true
unfolding bundle parses_single
parses_single_passes serde h = rw h refl

parses_batch_passes :
    (serde : Serde)
    → serde.calls_from_slice (bytes accounts_batch)
      ≡ some (call "getBalance" ∷ call "getProgramAccounts" ∷ [])
    → parses_batch_and_sums_cost serde ≡ true
unfolding bundle parses_batch_and_sums_cost
parses_batch_passes serde h = rw h refl

batch_picks_passes :
    (serde : Serde)
    → serde.calls_from_slice (bytes send_batch)
      ≡ some (call "getBalance" ∷ call "sendTransaction" ∷ [])
    → batch_picks_most_restrictive_class serde ≡ true
unfolding bundle batch_picks_most_restrictive_class
batch_picks_passes serde h = rw h refl

rest_path_passes : (serde : Serde) → rest_path_is_non_jsonrpc serde ≡ true
unfolding bundle rest_path_is_non_jsonrpc
rest_path_passes serde = refl

leading_whitespace_passes :
    (serde : Serde)
    → serde.call_from_slice (bytes spaced_call) ≡ some (call "getSlot")
    → leading_whitespace_ok serde ≡ true
unfolding bundle leading_whitespace_ok
leading_whitespace_passes serde h = rw h refl
