-- ===== src/Proxy/Secrets.antt =====
-- What of the client's request reaches the upstream.
use helius.Common.{
  String, Bool, true, false, arith, any, Option, none, some, List, [], ◌∷◌, ◌++◌, ◌≡◌, ◌↔◌, ◌⊎◌,
  refl, ap, sym, subst, ◌∙◌, inl, inr, Bool-cases, All, Any, ◌==◌, string_eq, ◌||◌, if◌then◌else◌,
}
use helius.Common.Text.{eq_ignore_ascii_case}
use mathlib.Core.Bool.{false≢true}
use helius.Proxy.Wire.{
  Header, Http, Uri, hop_by_hop, is_hop_by_hop, is_gateway_auth_header, forwarded_headers,
  preserved, append_pairs, query_pairs, build_upstream_url,
}

module _ {Url : Type 0} (http : Http Url) (pairs : Url → List (String × String)) where
  -- What `query_pairs_mut` is documented to do to the pairs of the query.
  pub record HasQueryPairs : Type 0 where
    pub cleared : (url : Url) → pairs (http.clear url) ≡ []
    pub appended :
        (k v : String) (url : Url) → pairs (http.append_pair k v url) ≡ pairs url ++ (k, v) ∷ []

-- A pair of the upstream's URL named `api-key` carries the upstream's key.
abbrev pub IsSafe : String → String × String → Type 0
IsSafe key kv = ((kv.0 == "api-key") ≡ false) ⊎ (kv ≡ ("api-key", key))

-- What is left of a list of pairs without those named `api-key`.
pub data Keeps : (given left : List (String × String)) → Type 0 where
  ended : Keeps [] []
  dropped :
      {given left : List (String × String)} (kv : String × String)
      → kv.0 ≡ "api-key"
      → Keeps given left
      → Keeps (kv ∷ given) left
  kept :
      {given left : List (String × String)} (kv : String × String)
      → (kv.0 == "api-key") ≡ false
      → Keeps given left
      → Keeps (kv ∷ given) (kv ∷ left)

append_assoc : {A : Type 0} (xs ys zs : List A) → (xs ++ ys) ++ zs ≡ xs ++ (ys ++ zs)
append_assoc [] ys zs = refl
append_assoc (x ∷ xs) ys zs = ap (λ t. x ∷ t) (append_assoc xs ys zs)

append_nil : {A : Type 0} (xs : List A) → xs ++ [] ≡ xs
append_nil [] = refl
append_nil (x ∷ xs) = ap (λ t. x ∷ t) (append_nil xs)

module _ {Url : Type 0} (http : Http Url) (pairs : Url → List (String × String))
    (laws : HasQueryPairs http pairs) where
  append_pairs_lem :
      (kvs : List (String × String)) (url : Url)
      → pairs (append_pairs http kvs url) ≡ pairs url ++ kvs
  unfolding append_pairs
  append_pairs_lem [] url = sym (append_nil (pairs url))
  append_pairs_lem (kv ∷ kvs) url =
      append_pairs_lem kvs (http.append_pair kv.0 kv.1 url)
      ∙ ap (λ ps. ps ++ kvs) (laws.appended kv.0 kv.1 url)
      ∙ append_assoc (pairs url) (kv ∷ []) kvs

  preserved-IsSafe :
      (key : String) (kvs : List (String × String))
      → All (IsSafe key) (preserved http kvs ++ ("api-key", key) ∷ [])
  unfolding preserved
  preserved-IsSafe key [] = (inr refl, tt)
  preserved-IsSafe key (kv ∷ kvs) = elim (Bool-cases (kv.0 == "api-key")) [
    | inl client ↦ rw client (preserved-IsSafe key kvs)
    | inr other ↦ rw other (inl other, preserved-IsSafe key kvs)
  ]

  preserved-Keeps : (kvs : List (String × String)) → Keeps kvs (preserved http kvs)
  unfolding preserved
  preserved-Keeps [] = ended
  preserved-Keeps (kv ∷ kvs) = elim (Bool-cases (kv.0 == "api-key")) [
    | inl client ↦
        rw client (dropped kv ((string_eq.decides kv.0 "api-key").0 client) (preserved-Keeps kvs))
    | inr other ↦ rw other (kept kv other (preserved-Keeps kvs))
  ]

  build_upstream_url-preserved :
      (base : Url) (uri : Uri) (key : String)
      → pairs (build_upstream_url http base uri key)
        ≡ preserved http (query_pairs http uri.query) ++ ("api-key", key) ∷ []
  unfolding build_upstream_url
  build_upstream_url-preserved base uri key =
      let kvs = preserved http (query_pairs http uri.query) in
      let url = http.clear (http.set_path uri.path base) in
      laws.appended "api-key" key (append_pairs http kvs url)
      ∙ ap (λ ps. ps ++ ("api-key", key) ∷ [])
          (append_pairs_lem kvs url ∙ ap (λ ps. ps ++ kvs) (laws.cleared _))

  -- The URL of an upstream carries the upstream's key and no other pair where the client sent no query.
  -- Where the client sent one, it carries the pairs that the query is parsed to, without those named
  -- `api-key` and in their order, and then the upstream's key; so no pair named `api-key` of the client is
  -- among them. The url crate clears and appends pairs as documented.
  pub build_upstream_url-pairs :
      (base : Url) (uri : Uri) (key : String)
      → let carried = pairs (build_upstream_url http base uri key) in
        (uri.query ≡ none → carried ≡ ("api-key", key) ∷ [])
        × ((q : String)
            → uri.query ≡ some q
            → (rest : List (String × String)) × Keeps (http.form_parse q) rest
              × (carried ≡ rest ++ ("api-key", key) ∷ []))
        × All (IsSafe key) carried
  unfolding query_pairs preserved
  build_upstream_url-pairs base uri key =
      let e = build_upstream_url-preserved base uri key in
      let sent =
        λ (o : Option String). preserved http (query_pairs http o) ++ ("api-key", key) ∷ [] in
      (
        λ without. e ∙ ap sent without,
        λ q query. (
          preserved http (http.form_parse q),
          preserved-Keeps (http.form_parse q),
          e ∙ ap sent query,
        ),
        subst (All (IsSafe key)) (sym e) (preserved-IsSafe key (query_pairs http uri.query)),
      )

abbrev is_dropped : Header → Bool
is_dropped h = is_hop_by_hop h.name || is_gateway_auth_header h.name

-- One turn of the loop over the headers, for the answer of its test.
turn_iff :
    (h x : Header) (hs rest : List Header) (drop : Bool)
    → is_dropped x ≡ drop
    → (Any (λ y. y ≡ h) rest ↔ (Any (λ y. y ≡ h) hs × (is_dropped h ≡ false)))
    → Any (λ y. y ≡ h) (if drop then rest else x ∷ rest)
      ↔ (Any (λ y. y ≡ h) (x ∷ hs) × (is_dropped h ≡ false))
turn_iff h x hs rest true e ih = (
  λ a. (inr (ih.0 a).0, (ih.0 a).1),
  λ a. elim a.0 [
    | inl same ↦ absurd (false≢true (sym a.1 ∙ ap is_dropped (sym same) ∙ e))
    | inr m ↦ ih.1 (m, a.1)
  ],
)
turn_iff h x hs rest false e ih = (
  λ a. elim a [
    | inl same ↦ (inl same, ap is_dropped (sym same) ∙ e)
    | inr m ↦ (inr (ih.0 m).0, (ih.0 m).1)
  ],
  λ a. elim a.0 [ inl same ↦ inl same | inr m ↦ inr (ih.1 (m, a.1)) ],
)

forwarded_headers-kept :
    (h : Header) (hs : List Header)
    → Any (λ x. x ≡ h) (forwarded_headers hs) ↔ (Any (λ x. x ≡ h) hs × (is_dropped h ≡ false))
unfolding forwarded_headers
forwarded_headers-kept h [] = (λ a. absurd a, λ a. absurd a.0)
forwarded_headers-kept h (x ∷ hs) =
    turn_iff h x hs (forwarded_headers hs) (is_dropped x) refl (forwarded_headers-kept h hs)

or_false_iff : (a b : Bool) → ((a || b) ≡ false) ↔ ((a ≡ false) × (b ≡ false))
or_false_iff a b = ground arith

any-false_iff :
    {A : Type 0} (f : A → Bool) (xs : List A) → (any f xs ≡ false) ↔ All (λ x. f x ≡ false) xs
any-false_iff f [] = (λ _. tt, λ _. refl)
any-false_iff f (x ∷ xs) =
    let both = or_false_iff (f x) (any f xs) in
    let rest = any-false_iff f xs in
    (
      λ e. let (here, later) = both.0 e in (here, rest.0 later),
      λ (here, later). both.1 (here, rest.1 later),
    )

-- A name that, ignoring ASCII case, is neither one of a connection and its host nor one that may carry
-- the gateway's key.
abbrev pub IsPassedOn : String → Type 0
IsPassedOn name =
    All (λ n. eq_ignore_ascii_case name n ≡ false)
      ("connection" ∷ "keep-alive" ∷ "proxy-authenticate" ∷ "proxy-authorization" ∷ "te" ∷ "trailer"
        ∷ "transfer-encoding" ∷ "upgrade" ∷ "host" ∷ [])
    × (eq_ignore_ascii_case name "x-api-key" ≡ false)
    × (eq_ignore_ascii_case name "authorization" ≡ false)

is_dropped_iff : (h : Header) → (is_dropped h ≡ false) ↔ IsPassedOn h.name
unfolding is_hop_by_hop is_gateway_auth_header
is_dropped_iff h =
    let hop = any-false_iff (λ n. eq_ignore_ascii_case h.name n) hop_by_hop in
    let key = eq_ignore_ascii_case h.name "x-api-key" in
    let auth = eq_ignore_ascii_case h.name "authorization" in
    let both = or_false_iff (is_hop_by_hop h.name) (is_gateway_auth_header h.name) in
    let two = or_false_iff key auth in
    (
      λ e. let (a, b) = both.0 e in (hop.0 a, (two.0 b).0, (two.0 b).1),
      λ (a, x, y). both.1 (hop.1 a, two.1 (x, y)),
    )

-- A header of the client is passed on to the HTTP client exactly when the client sent it and its name, ignoring ASCII
-- case, is not one of the nine that belong to a connection and its host, nor x-api-key, nor authorization, so
-- that no header which may carry the gateway's key is passed on.
pub forwarded_headers_iff :
    (h : Header) (hs : List Header)
    → Any (λ x. x ≡ h) (forwarded_headers hs) ↔ (Any (λ x. x ≡ h) hs × IsPassedOn h.name)
forwarded_headers_iff h hs =
    let kept_iff = forwarded_headers-kept h hs in
    let name_iff = is_dropped_iff h in
    (
      λ a. let (sent, free) = kept_iff.0 a in (sent, name_iff.0 free),
      λ (sent, free). kept_iff.1 (sent, name_iff.1 free),
    )
