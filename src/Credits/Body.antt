-- ===== src/Credits/Body.antt =====
-- Which bodies are taken for JSON-RPC.
use text.Mathlib.Text.{starts_with}
use helius.Common.{
  ℕ, String, Bool, false, Option, none, some, ◌≡◌, ◌≢◌, ◌⊎◌, inl, inr, ◌||◌, nat_eq, refl, arith,
  List, [], ◌∷◌, Bool-cases, is_empty,
}
use helius.Credits.Parse.{
  single, batch, RpcCall, Serde, first_non_ws, call_methods, batch_of, single_of, parse_body,
}

abbrev pub is_rest : String → Bool
is_rest path = starts_with path "/v0/" || starts_with path "/v1/"

batch_of-batch :
    (r : Option (List RpcCall)) (ms : List String)
    → batch_of r ≡ batch ms
    → (ms ≢ []) × (calls : List RpcCall) × (r ≡ some calls) × (call_methods calls ≡ ms)
unfolding batch_of
batch_of-batch none ms h = absurd (ground arith)
batch_of-batch (some calls) ms h = elim (Bool-cases (is_empty (call_methods calls))) [
  | inl e ↦ absurd (ground arith)
  | inr f ↦
      let same : call_methods calls ≡ ms = ground arith in ((λ z. ground arith), calls, refl, same)
]

-- A body is taken for a batch only outside the REST paths, if it begins with `[` and decodes; the
-- batch is never empty and holds the methods of the calls that name one, in order.
pub parse_body-batch :
    (s : Serde) (path : String) (body : List ℕ) (ms : List String)
    → parse_body s path body ≡ batch ms
    → (is_rest path ≡ false)
      × (first_non_ws body ≡ some b'[')
      × (ms ≢ [])
      × (calls : List RpcCall) × (s.calls_from_slice body ≡ some calls)
      × (call_methods calls ≡ ms)
unfolding parse_body single_of
parse_body-batch s path body ms h =
    let found : batch_of (s.calls_from_slice body) ≡ batch ms = ground arith in
    let (full, calls, decoded, names) = batch_of-batch (s.calls_from_slice body) ms found in
    (ground arith, ground arith, full, calls, decoded, names)

-- It is taken for a single call only outside the REST paths, if it begins with `{` and decodes to a
-- call that names the method.
pub parse_body-single :
    (s : Serde) (path : String) (body : List ℕ) (m : String)
    → parse_body s path body ≡ single m
    → (is_rest path ≡ false)
      × (first_non_ws body ≡ some b'{')
      × (s.call_from_slice body ≡ some (record { method = some m }))
unfolding parse_body single_of batch_of
parse_body-single s path body m h = ground arith

-- The decoder skips the white space of JSON in front of a value.
pub record SkipsWhitespace (s : Serde) : Type 0 where
  pub calls :
      (w : ℕ) (body : List ℕ)
      → (w ≡ 32) ⊎ (w ≡ 9) ⊎ (w ≡ 10) ⊎ (w ≡ 13)
      → s.calls_from_slice (w ∷ body) ≡ s.calls_from_slice body
  pub call :
      (w : ℕ) (body : List ℕ)
      → (w ≡ 32) ⊎ (w ≡ 9) ⊎ (w ≡ 10) ⊎ (w ≡ 13)
      → s.call_from_slice (w ∷ body) ≡ s.call_from_slice body

first_non_ws-skip :
    (w : ℕ) (body : List ℕ)
    → (w ≡ 32) ⊎ (w ≡ 9) ⊎ (w ≡ 10) ⊎ (w ≡ 13)
    → first_non_ws (w ∷ body) ≡ first_non_ws body
unfolding first_non_ws
first_non_ws-skip w body h = ground arith

-- White space of JSON in front of a body does not change what it is taken for.
pub parse_body-whitespace :
    (s : Serde) (path : String) (w : ℕ) (body : List ℕ)
    → SkipsWhitespace s
    → (w ≡ 32) ⊎ (w ≡ 9) ⊎ (w ≡ 10) ⊎ (w ≡ 13)
    → parse_body s path (w ∷ body) ≡ parse_body s path body
unfolding parse_body
parse_body-whitespace s path w body skips h =
    ground (arith, skips.calls w body h, skips.call w body h, first_non_ws-skip w body h)
