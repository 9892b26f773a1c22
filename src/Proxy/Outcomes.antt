-- ===== src/Proxy/Outcomes.antt =====
-- What is counted of the tries of a key in src/proxy.rs, and what one try and those after it do to it.
use helius.Common.{
  ℕ, zero, suc, true, false, Option, some, List, [], ◌∷◌, ◌++◌, map, ◌≡◌, ◌≢◌, refl, ap, sym, subst,
  ◌∙◌, arith, get_elem?, modify, contains, nat_eq, ==_refl, ◌==◌, inl, inr, ◌⊎◌, add_u64,
  Bool-cases,
}
use mathlib.Core.Bool.{false≢true}
use mathlib.Core.Option.{some-injective}
use helius.Upstream.{Upstream}
use helius.Pool.{Pool, Request, select}
use helius.Pool.Frame.{stripped}
use helius.Pool.Choice.{select-stripped}
use helius.Proxy.Arms.{Next, returned, retried}

-- How often a key was tried, by what came of it.
pub record Outcomes : Type 0 where
  pub served : ℕ
  pub limited : ℕ
  pub failed : ℕ

-- One more outcome of one kind, where each is counted in a u64.
abbrev pub IsOneMore : (before after : Outcomes) → Type 0
IsOneMore o o' =
    (o' ≡ record o { served = add_u64 o.served 1 })
    ⊎ (o' ≡ record o { limited = add_u64 o.limited 1 })
    ⊎ (o' ≡ record o { failed = add_u64 o.failed 1 })

-- What was counted of a key is as it was, or there is one outcome more.
abbrev pub IsAtMostOneMore : (before after : Option Outcomes) → Type 0
IsAtMostOneMore a b =
    (b ≡ a) ⊎ ((o : Outcomes) × (o' : Outcomes) × (a ≡ some o) × (b ≡ some o') × IsOneMore o o')

-- What a try of one key does to what is counted of the key at `j`.
abbrev pub IsTouched : (idx j : ℕ) → (before after : Option Outcomes) → Type 0
IsTouched idx j a b = (idx ≢ j → b ≡ a) × IsAtMostOneMore a b

-- What a loop that leaves some keys out does to it.
abbrev pub IsOnce : (skip : List ℕ) → (j : ℕ) → (before after : Option Outcomes) → Type 0
IsOnce skip j a b = (contains skip j ≡ true → b ≡ a) × IsAtMostOneMore a b

pub IsOnce-same : (skip : List ℕ) (j : ℕ) (a b : Option Outcomes) → b ≡ a → IsOnce skip j a b
IsOnce-same skip j a b same = (λ _. same, inl same)

-- What one pass does to it: a pass that goes on tried a key that was not left out.
abbrev pub IsPassed : Next → (skip : List ℕ) → (j : ℕ) → (before after : Option Outcomes) → Type 0
IsPassed (returned result) skip j a b = IsOnce skip j a b
IsPassed (retried idx) skip j a b = (contains skip idx ≡ false) × IsTouched idx j a b

contains-append :
    (skip : List ℕ) (idx j : ℕ) → contains skip j ≡ true → contains (skip ++ idx ∷ []) j ≡ true
contains-append [] idx j h = absurd (ground arith)
contains-append (k ∷ skip) idx j h = ground (arith, contains-append skip idx j)

contains-last : (skip : List ℕ) (idx : ℕ) → contains (skip ++ idx ∷ []) idx ≡ true
contains-last [] idx = rw (==_refl idx) refl
contains-last (k ∷ skip) idx = ground (arith, contains-last skip idx)

untried-ne :
    (skip : List ℕ) (idx j : ℕ) → contains skip idx ≡ false → contains skip j ≡ true → idx ≢ j
untried-ne skip idx j untried out e = false≢true (sym untried ∙ ap (contains skip) e ∙ out)

pub touched-IsOnce :
    (skip : List ℕ) (idx j : ℕ) (a b : Option Outcomes)
    → contains skip idx ≡ false
    → IsTouched idx j a b
    → IsOnce skip j a b
touched-IsOnce skip idx j a b untried (others, most) =
    (λ out. others (untried-ne skip idx j untried out), most)

-- A try and the passes after it, which leave its key out.
pub IsTouched-IsOnce :
    (skip : List ℕ) (idx j : ℕ) (a b c : Option Outcomes)
    → contains skip idx ≡ false
    → IsTouched idx j a b
    → IsOnce (skip ++ idx ∷ []) j b c
    → IsOnce skip j a c
IsTouched-IsOnce skip idx j a b c untried (others, most) (left_out, later) = (
  λ out. left_out (contains-append skip idx j out) ∙ others (untried-ne skip idx j untried out),
  elim (Bool-cases (idx == j)) [
    | inl same ↦
        let here = (nat_eq.decides idx j).0 same in
        subst (IsAtMostOneMore a)
          (sym (
            left_out
              (subst (λ k. contains (skip ++ idx ∷ []) k ≡ true) here (contains-last skip idx))))
          most
    | inr other ↦
        subst (λ o. IsAtMostOneMore o c)
          (others (λ e. false≢true (sym other ∙ (nat_eq.decides idx j).1 e))) later
  ],
)

module _ {Limiter : Type 0} where
  abbrev pub outcomes : Upstream Limiter → Outcomes
  outcomes u = record {
    served = u.requests_ok;
    limited = u.requests_rate_limited;
    failed = u.requests_error;
  }

  -- What is counted of the key at an index.
  abbrev pub counted : Pool Limiter → ℕ → Option Outcomes
  counted p j = get_elem? (map outcomes p.upstreams) j

  outcomes-stripped :
      (ups : List (Upstream Limiter)) → map outcomes (stripped ups) ≡ map outcomes ups
  outcomes-stripped [] = refl
  outcomes-stripped (u ∷ ups) = ap (λ t. outcomes u ∷ t) (outcomes-stripped ups)

  pub counted-select :
      (q : Request Limiter) (p : Pool Limiter) (j : ℕ) → counted (select q p).1 j ≡ counted p j
  counted-select q p j =
      ap (λ os. get_elem? os j)
        (sym (outcomes-stripped (select q p).1.upstreams)
          ∙ ap (map outcomes) (select-stripped q p).0
          ∙ outcomes-stripped p.upstreams)

  pub modify-IsTouched :
      (ups : List (Upstream Limiter)) (idx j : ℕ) (up new : Upstream Limiter)
      → get_elem? ups idx ≡ some up
      → IsOneMore (outcomes up) (outcomes new)
      → IsTouched idx j
          (get_elem? (map outcomes ups) j)
          (get_elem? (map outcomes (modify idx (λ _. new) ups)) j)
  modify-IsTouched [] idx j up new found more = absurd (ground arith)
  modify-IsTouched (x ∷ ups) zero zero up new found more = (
    λ ne. absurd (ne refl),
    inr (
      outcomes up,
      outcomes new,
      ap (λ u. some (outcomes u)) (some-injective x up found),
      refl,
      more,
    ),
  )
  modify-IsTouched (x ∷ ups) zero (suc j) up new found more = (λ _. refl, inl refl)
  modify-IsTouched (x ∷ ups) (suc idx) zero up new found more = (λ _. refl, inl refl)
  modify-IsTouched (x ∷ ups) (suc idx) (suc j) up new found more =
      let (others, most) = modify-IsTouched ups idx j up new found more in
      (λ ne. others (λ e. ne (ap suc e)), most)
