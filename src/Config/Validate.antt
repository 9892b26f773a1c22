-- ===== src/Config/Validate.antt =====
-- `Config::validate` of src/config.rs.
use helius.Common.{
  String, Option, none, some, List, [], ◌∷◌, ◌==◌, string_eq, nat_eq, if◌then◌else◌, is_empty,
}
use helius.Common.Text.{trim}
use helius.Common.Text
use helius.Config.Schema.{Config, UpstreamConfig}

-- The messages of the `bail!` calls; the two about an upstream carry its name.
pub data ConfigError : Type 0 where
  empty_gateway_key : ConfigError
  placeholder_gateway_key : ConfigError
  no_upstreams : ConfigError
  empty_upstream_key : String → ConfigError
  zero_credit_cap : String → ConfigError
  zero_max_retries : ConfigError

-- `none` is `Ok(())`.
unfoldable pub validate_upstream : UpstreamConfig → Option ConfigError
unfolding trim
validate_upstream up =
    if Text.is_empty (trim up.api_key)
    then some (empty_upstream_key up.name)
    else if up.credit_cap == 0
    then some (zero_credit_cap up.name)
    else none

-- The `for up in &self.upstreams` loop: the first upstream that fails ends it.
unfoldable pub validate_upstreams : List UpstreamConfig → Option ConfigError
unfolding validate_upstream
validate_upstreams [] = none
validate_upstreams (up ∷ ups) = elim (validate_upstream up) [
  | some e ↦ some e
  | none ↦ validate_upstreams ups
]

unfoldable pub validate : Config → Option ConfigError
unfolding validate_upstreams trim
validate c =
    if Text.is_empty (trim c.gateway.api_key)
    then some empty_gateway_key
    else if c.gateway.api_key == "CHANGE_ME_gateway_token"
    then some placeholder_gateway_key
    else if is_empty c.upstreams
    then some no_upstreams
    else elim (validate_upstreams c.upstreams) [
      | some e ↦ some e
      | none ↦ if c.gateway.max_retries == 0 then some zero_max_retries else none
    ]
