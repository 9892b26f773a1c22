-- ===== src/Credits/Choice.antt =====
-- The class that a batch is gated by.
use helius.Common.{
  refl, string_eq, String, ◌≡◌, ◌≢◌, ◌⊎◌, arith, ◌≤◌, sym, ap, subst, List, [], ◌∷◌, map, All, Any,
  min_by_key_lem, inl, inr,
}
use helius.Credits.Class.{
  MethodClass, send_transaction, get_program_accounts, das, zk, standard_rpc, classify,
  restrictiveness,
}
use helius.Credits.Parse.{batch, class_or, primary_class}

All-map :
    {A B : Type 0} (P : B → Type 0) (f : A → B) (xs : List A)
    → All P (map f xs)
    → All (λ x. P (f x)) xs
All-map P f [] h = tt
All-map P f (x ∷ xs) h = (h.0, All-map P f xs h.1)

Any-map :
    {A B : Type 0} (P : B → Type 0) (f : A → B) (xs : List A)
    → Any P (map f xs)
    → Any (λ x. P (f x)) xs
Any-map P f [] h = h
Any-map P f (x ∷ xs) (inl p) = inl p
Any-map P f (x ∷ xs) (inr h) = inr (Any-map P f xs h)

-- The order of src/credits.rs in words: a sendTransaction is as strict as any class, a DAS or ZK call as
-- any but a sendTransaction, a getProgramAccounts as itself and the standard calls, and a standard call
-- only as itself.
abbrev pub IsAsStrictAs : MethodClass → MethodClass → Type 0
IsAsStrictAs send_transaction d = Unit
IsAsStrictAs das d = d ≢ send_transaction
IsAsStrictAs zk d = d ≢ send_transaction
IsAsStrictAs get_program_accounts d = (d ≡ get_program_accounts) ⊎ (d ≡ standard_rpc)
IsAsStrictAs standard_rpc d = d ≡ standard_rpc

restrictiveness-IsAsStrictAs :
    (c d : MethodClass) → restrictiveness c ≤ restrictiveness d → IsAsStrictAs c d
unfolding restrictiveness
restrictiveness-IsAsStrictAs send_transaction d h = tt
restrictiveness-IsAsStrictAs das d h = ground arith
restrictiveness-IsAsStrictAs zk d h = ground arith
restrictiveness-IsAsStrictAs get_program_accounts d h = ground arith
restrictiveness-IsAsStrictAs standard_rpc d h = ground arith

All-mono :
    {A : Type 0} (P Q : A → Type 0) (xs : List A) → ((x : A) → P x → Q x) → All P xs → All Q xs
All-mono P Q [] f h = tt
All-mono P Q (x ∷ xs) f h = (f x h.0, All-mono P Q xs f h.1)

IsAsStrictAs-send : (c : MethodClass) → IsAsStrictAs c send_transaction → c ≡ send_transaction
IsAsStrictAs-send send_transaction h = refl
IsAsStrictAs-send das h = absurd (h refl)
IsAsStrictAs-send zk h = absurd (h refl)
IsAsStrictAs-send get_program_accounts h = ground arith
IsAsStrictAs-send standard_rpc h = sym h

IsAsStrictAs-sent :
    (c : MethodClass) (x : String)
    → IsAsStrictAs c (classify x)
    → x ≡ "sendTransaction"
    → c ≡ send_transaction
unfolding classify
IsAsStrictAs-sent c x h e = IsAsStrictAs-send c (subst (λ y. IsAsStrictAs c (classify y)) e h)

-- A batch is gated by the class of one of its methods, and this class is as strict as that of every method
-- of the batch, where a sendTransaction is stricter than a DAS or ZK call, these than a getProgramAccounts,
-- and that than a standard call; so a batch with the method sendTransaction is gated as one.
pub primary_class-batch :
    (m : String) (ms : List String)
    → Any (λ x. primary_class (batch (m ∷ ms)) ≡ classify x) (m ∷ ms)
      × All (λ x. IsAsStrictAs (primary_class (batch (m ∷ ms))) (classify x)) (m ∷ ms)
      × All
          (λ x. x ≡ "sendTransaction" → primary_class (batch (m ∷ ms)) ≡ send_transaction)
          (m ∷ ms)
unfolding primary_class
primary_class-batch m ms =
    let (c, chosen, there, least) = min_by_key_lem restrictiveness (classify m) (map classify ms) in
    let e : primary_class (batch (m ∷ ms)) ≡ c = ap (λ o. class_or o standard_rpc) chosen in
    let strict =
      All-mono (λ x. restrictiveness c ≤ restrictiveness (classify x))
        (λ x. IsAsStrictAs c (classify x)) (m ∷ ms)
        (λ x. restrictiveness-IsAsStrictAs c (classify x))
        (All-map (λ y. restrictiveness c ≤ restrictiveness y) classify (m ∷ ms) least) in
    subst
      (λ d.
        Any (λ x. d ≡ classify x) (m ∷ ms)
        × All (λ x. IsAsStrictAs d (classify x)) (m ∷ ms)
        × All (λ x. x ≡ "sendTransaction" → d ≡ send_transaction) (m ∷ ms))
      (sym e)
      (
        Any-map (λ y. c ≡ y) classify (m ∷ ms) there,
        strict,
        All-mono (λ x. IsAsStrictAs c (classify x))
            (λ x. x ≡ "sendTransaction" → c ≡ send_transaction) (m ∷ ms) (IsAsStrictAs-sent c)
            strict,
      )
