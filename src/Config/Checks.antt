-- ===== src/Config/Checks.antt =====
-- What `validate` lets through.
use helius.Common.{
  false, none, List, [], ◌∷◌, ◌≡◌, ◌≢◌, ◌<◌, ◌↔◌, refl, arith, All, length, is_empty, string_eq,
}
use helius.Common.Text.{trim}
use helius.Common.Text
use text.Mathlib.TextEquality.{eq_iff}
use helius.Config.Schema.{Config, UpstreamConfig}
use helius.Config.Validate.{validate, validate_upstream, validate_upstreams}

abbrev pub IsUsableUpstream : UpstreamConfig → Type 0
IsUsableUpstream up = (Text.is_empty (trim up.api_key) ≡ false) × (0 < up.credit_cap)

pub record IsUsable (c : Config) : Type 0 where
  pub gateway_key : Text.is_empty (trim c.gateway.api_key) ≡ false
  pub not_placeholder : c.gateway.api_key ≢ "CHANGE_ME_gateway_token"
  pub some_upstream : 0 < length c.upstreams
  pub upstreams : All IsUsableUpstream c.upstreams
  pub retries : 0 < c.gateway.max_retries

pub validate_upstreams_sound :
    (ups : List UpstreamConfig) → validate_upstreams ups ≡ none → All IsUsableUpstream ups
unfolding validate_upstreams validate_upstream
validate_upstreams_sound [] h = tt
validate_upstreams_sound (up ∷ ups) h = ground (arith, validate_upstreams_sound ups)

pub validate_upstreams_complete :
    (ups : List UpstreamConfig) → All IsUsableUpstream ups → validate_upstreams ups ≡ none
unfolding validate_upstreams validate_upstream
validate_upstreams_complete [] h = refl
validate_upstreams_complete (up ∷ ups) h = ground (arith, validate_upstreams_complete ups h.1)

is_empty-length : {A : Type 0} (xs : List A) → (is_empty xs ≡ false) ↔ (0 < length xs)
is_empty-length [] = ground arith
is_empty-length (x ∷ xs) = ground arith

-- A configuration passes `validate` exactly when the gateway key is neither blank nor the
-- placeholder, there is an upstream, every upstream has a key that is not blank and a cap above 0,
-- and at least one try is allowed per request.
pub validate_iff : (c : Config) → (validate c ≡ none) ↔ IsUsable c
unfolding validate
validate_iff c = (
  λ h. record {
    gateway_key = ground arith;
    not_placeholder = ground (arith, eq_iff c.gateway.api_key "CHANGE_ME_gateway_token");
    some_upstream = ground (arith, is_empty-length c.upstreams);
    upstreams = ground (arith, validate_upstreams_sound c.upstreams);
    retries = ground arith;
  },
  λ u.
      let g = u.gateway_key in
      let r = u.retries in
      let s = u.some_upstream in
      let d = validate_upstreams_complete c.upstreams u.upstreams in
      ground (
        arith,
        eq_iff c.gateway.api_key "CHANGE_ME_gateway_token",
        u.not_placeholder,
        is_empty-length c.upstreams,
      ),
)
