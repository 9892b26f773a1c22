-- ===== src/Proxy/Wire.antt =====
-- Requests, responses, headers and URLs of src/proxy.rs. A header map is the list of its entries in the
-- order of its iteration. The http and url crates are parameters. `first_non_ws` is written here as it is in
-- src/credits.rs, and is that one.
use helius.Common.{
  ℕ, String, Bool, true, false, not, ◌||◌, ◌&&◌, Option, none, some, List, [], ◌∷◌, ◌==◌, nat_eq,
  string_eq, if◌then◌else◌, any, find,
}
use helius.Common.Int.{ℤ, pos, negsuc}
use helius.Common.Text.{trim, strip_prefix, eq_ignore_ascii_case}
use helius.Credits.{first_non_ws}
use helius.Error.{unauthorized, Result, ok, err}

-- A value is its bytes.
pub record Header : Type 0 where
  pub name : String
  pub value : List ℕ

pub record Uri : Type 0 where
  pub path : String
  pub query : Option String

pub record Buffered : Type 0 where
  pub status : ℕ
  pub headers : List Header
  pub body : List ℕ

-- `HeaderValue::to_str`, `form_urlencoded::parse`, and of `Url`: `set_path`, and `clear` and `append_pair`
-- of its `query_pairs_mut`.
pub record Http (Url : Type 0) : Type 0 where
  pub to_str : List ℕ → Option String
  pub form_parse : String → List (String × String)
  pub set_path : String → Url → Url
  pub clear : Url → Url
  pub append_pair : (key value : String) → Url → Url

abbrev pub hop_by_hop : List String
hop_by_hop =
    "connection" ∷ "keep-alive" ∷ "proxy-authenticate" ∷ "proxy-authorization" ∷ "te" ∷ "trailer"
    ∷ "transfer-encoding" ∷ "upgrade" ∷ "host" ∷ []

abbrev pub rate_limit_rpc_code : ℤ
rate_limit_rpc_code = negsuc 32_004

unfoldable pub is_hop_by_hop : String → Bool
unfolding eq_ignore_ascii_case
is_hop_by_hop name = any (λ h. eq_ignore_ascii_case name h) hop_by_hop

unfoldable pub is_gateway_auth_header : String → Bool
unfolding eq_ignore_ascii_case
is_gateway_auth_header name =
    eq_ignore_ascii_case name "x-api-key" || eq_ignore_ascii_case name "authorization"

-- `a == Some(RATE_LIMIT_RPC_CODE)`
unfoldable pub is_rate_limit_code : Option ℤ → Bool
is_rate_limit_code none = false
is_rate_limit_code (some (pos n)) = false
is_rate_limit_code (some (negsuc n)) = n == 32_004

-- `peek` is `serde_json::from_slice::<ErrPeek>`: an error, or the code of the body's error if it has one.
unfoldable pub is_rate_limited : (peek : List ℕ → Option (Option ℤ)) → Buffered → Bool
is_rate_limited peek buf = if buf.status == 429 then true else elim (first_non_ws buf.body) [
  | none ↦ false
  | some b ↦
      if b == b'{'
      then elim (peek buf.body) [ some code ↦ is_rate_limit_code code | none ↦ false ]
      else false
]

-- The loop over the headers in `forward_once`.
unfoldable pub forwarded_headers : List Header → List Header
forwarded_headers [] = []
forwarded_headers (h ∷ hs) =
    let rest = forwarded_headers hs in
    if is_hop_by_hop h.name || is_gateway_auth_header h.name then rest else h ∷ rest

unfoldable pub relayed_headers : List Header → List Header
relayed_headers [] = []
relayed_headers (h ∷ hs) =
    let rest = relayed_headers hs in if is_hop_by_hop h.name then rest else h ∷ rest

-- The builder fails on no status, name or value that a response of the upstream had.
unfoldable pub build_response : Buffered → Buffered
build_response buf = record buf { headers = relayed_headers buf.headers }

-- `HeaderMap::get`, then `to_str().ok()`.
unfoldable pub header_text : {Url : Type 0} → Http Url → String → List Header → Option String
header_text http name headers = elim (find (λ h. h.name == name) headers) [
  | some h ↦ http.to_str h.value
  | none ↦ none
]

unfoldable pub bearer : Option String → Option String
unfolding trim
bearer none = none
bearer (some rest) = some (trim rest)

unfoldable pub is_some_equal : Option String → String → Bool
is_some_equal none expected = false
is_some_equal (some v) expected = v == expected

module _ {Url : Type 0} (http : Http Url) where
  -- The pairs of a query, none where there is no query.
  unfoldable pub query_pairs : Option String → List (String × String)
  query_pairs none = []
  query_pairs (some q) = http.form_parse q

  unfoldable pub check_gateway_auth : (expected : String) → Uri → List Header → Result Unit
  check_gateway_auth expected uri headers =
      if any (λ kv. kv.0 == "api-key" && kv.1 == expected) (query_pairs uri.query)
      then ok tt
      else if is_some_equal (header_text http "x-api-key" headers) expected
      then ok tt
      else elim (header_text http "authorization" headers) [
        | none ↦ err unauthorized
        | some v ↦
            if is_some_equal (bearer (strip_prefix "Bearer " v)) expected
            then ok tt
            else err unauthorized
      ]

  -- `.filter(|(k, _)| k != "api-key")`
  unfoldable pub preserved : List (String × String) → List (String × String)
  preserved [] = []
  preserved (kv ∷ kvs) =
      let rest = preserved kvs in if not (kv.0 == "api-key") then kv ∷ rest else rest

  unfoldable pub append_pairs : List (String × String) → Url → Url
  append_pairs [] url = url
  append_pairs (kv ∷ kvs) url = append_pairs kvs (http.append_pair kv.0 kv.1 url)

  unfoldable pub build_upstream_url : Url → Uri → (upstream_key : String) → Url
  build_upstream_url base uri upstream_key =
      let url = http.clear (http.set_path uri.path base) in
      http.append_pair "api-key" upstream_key (append_pairs (preserved (query_pairs uri.query)) url)
