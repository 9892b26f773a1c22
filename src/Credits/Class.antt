-- ===== src/Credits/Class.antt =====
-- `MethodClass` and `classify` of src/credits.rs.
use helius.Common.{
  ℕ, String, Bool, true, false, ◌≡◌, ◌↔◌, arith, Comparable, List, [], ◌∷◌, ◌==◌, string_eq,
  if◌then◌else◌, contains,
}

pub data MethodClass : Type 0 where
  standard_rpc send_transaction get_program_accounts das zk : MethodClass

unfoldable pub default_cost : MethodClass → ℕ
default_cost standard_rpc = 1
default_cost send_transaction = 1
default_cost get_program_accounts = 10
default_cost das = 10
default_cost zk = 10

-- Lower is stricter.
unfoldable pub restrictiveness : MethodClass → ℕ
restrictiveness send_transaction = 0
restrictiveness das = 1
restrictiveness zk = 1
restrictiveness get_program_accounts = 2
restrictiveness standard_rpc = 3

abbrev pub das_methods : List String
das_methods =
    "getAsset" ∷ "getAssetBatch" ∷ "getAssetProof" ∷ "getAssetProofBatch" ∷ "getAssetsByOwner"
    ∷ "getAssetsByAuthority" ∷ "getAssetsByCreator" ∷ "getAssetsByGroup" ∷ "searchAssets"
    ∷ "getSignaturesForAsset" ∷ "getTokenAccounts" ∷ "getNftEditions" ∷ []

unfoldable pub is_das : String → Bool
is_das m = contains das_methods m

abbrev pub zk_methods : List String
zk_methods =
    "getCompressedAccount" ∷ "getCompressedAccountProof" ∷ "getCompressedAccountsByOwner"
    ∷ "getCompressedBalance" ∷ "getCompressedBalanceByOwner" ∷ "getCompressedTokenAccountsByOwner"
    ∷ "getCompressedTokenAccountBalance" ∷ "getValidityProof" ∷ "getValidityProofs"
    ∷ "getMultipleCompressedAccounts" ∷ []

unfoldable pub is_zk : String → Bool
is_zk m = contains zk_methods m

unfoldable pub classify : String → MethodClass
classify method =
    if method == "sendTransaction"
    then send_transaction
    else if method == "getProgramAccounts"
    then get_program_accounts
    else if is_das method
    then das
    else if is_zk method
    then zk
    else standard_rpc

-- The derived `Eq` of the classes, which are keys of a map.
abbrev pub class_beq : MethodClass → MethodClass → Bool
class_beq standard_rpc standard_rpc = true
class_beq send_transaction send_transaction = true
class_beq get_program_accounts get_program_accounts = true
class_beq das das = true
class_beq zk zk = true
class_beq _ _ = false

pub class_beq_iff : (a b : MethodClass) → (class_beq a b ≡ true) ↔ (a ≡ b)
class_beq_iff a b = ground arith

instance abbrev pub class_eq : Comparable MethodClass
class_eq = record { test = class_beq; decides = class_beq_iff }
