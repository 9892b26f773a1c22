-- ===== src/Serving/Weights.antt =====
-- Sums over the flights of a ledger.
use helius.Common.{
  ℕ, zero, suc, Option, none, some, List, [], ◌∷◌, ◌++◌, ◌≡◌, arith, ◌+◌, ◌*◌, ◌≤◌, get_elem?, set,
  All, ◌==◌, nat_eq, if◌then◌else◌, Bool-cases, inl, inr,
}
use mathlib.Core.Option.{some-injective}
use helius.Serving.Ledger.{Flight}

abbrev pub total : (Option Flight → ℕ) → List (Option Flight) → ℕ
total w [] = 0
total w (o ∷ os) = w o + total w os

-- The flights that may cost credits, the requests in flight to a key, and the estimates of the flights, all or
-- to a key.
abbrev pub one : Option Flight → ℕ
one none = 0
one (some f) = if f.est == 0 then 0 else 1

abbrev pub cost : Option Flight → ℕ
cost none = 0
cost (some f) = f.est

abbrev pub request_at : ℕ → Option Flight → ℕ
request_at i none = 0
request_at i (some f) = if f.idx == i then (if f.is_request then 1 else 0) else 0

abbrev pub cost_at : ℕ → Option Flight → ℕ
cost_at i none = 0
cost_at i (some f) = if f.idx == i then f.est else 0

pub total-append :
    (w : Option Flight → ℕ) (os : List (Option Flight)) (o : Option Flight)
    → total w (os ++ o ∷ []) ≡ total w os + w o
total-append w [] o = omega arith
total-append w (p ∷ os) o = omega (arith, total-append w os o)

pub total-set :
    (w : Option Flight → ℕ) (os : List (Option Flight)) (n : ℕ) (old new : Option Flight)
    → get_elem? os n ≡ some old
    → total w (set os n new) + w old ≡ total w os + w new
total-set w [] n old new h = absurd (ground arith)
total-set w (p ∷ os) zero old new h = rw (some-injective p old h) (omega arith)
total-set w (p ∷ os) (suc n) old new h = omega (arith, total-set w os n old new h)

pub All-set :
    (P : Option Flight → Type 0) (os : List (Option Flight)) (n : ℕ) (new : Option Flight)
    → All P os
    → P new
    → All P (set os n new)
All-set P [] n new h p = tt
All-set P (o ∷ os) zero new h p = (p, h.1)
All-set P (o ∷ os) (suc n) new h p = (h.0, All-set P os n new h.1 p)

pub All-append :
    (P : Option Flight → Type 0) (os : List (Option Flight)) (new : Option Flight)
    → All P os
    → P new
    → All P (os ++ new ∷ [])
All-append P [] new h p = (p, tt)
All-append P (o ∷ os) new h p = (h.0, All-append P os new h.1 p)

-- A flight to a key weighs no more than one with the same estimate.
pub cost_at-le : (i : ℕ) (o : Option Flight) → cost_at i o ≤ cost o
cost_at-le i o = ground arith

-- Flights of at most `most` each add up to that many times their number.
pub total_cost_at-le :
    (i most : ℕ) (os : List (Option Flight))
    → All (λ o. cost o ≤ most) os
    → total (cost_at i) os ≤ total one os * most
total_cost_at-le i most [] h = omega arith
total_cost_at-le i most (none ∷ os) h = omega (arith, total_cost_at-le i most os h.1)
total_cost_at-le i most (some f ∷ os) h =
    grind (arith, total_cost_at-le i most os h.1, cost_at-le i (some f), h.0)

-- Where each flight to a key also fits under its cap, the first is within the cap and the others add up.
pub total_cost_at-le-cap :
    (i limit most others : ℕ) (os : List (Option Flight))
    → All (λ o. cost o ≤ most) os
    → All (λ o. cost_at i o ≤ limit) os
    → total one os ≤ suc others
    → total (cost_at i) os ≤ limit + others * most
total_cost_at-le-cap i limit most others [] h fits few = omega arith
total_cost_at-le-cap i limit most others (none ∷ os) h fits few =
    omega (arith, total_cost_at-le-cap i limit most others os h.1 fits.1 (omega arith))
total_cost_at-le-cap i limit most others (some f ∷ os) h fits few = elim (Bool-cases (f.est == 0)) [
  | inl free ↦
      let rest = total_cost_at-le-cap i limit most others os h.1 fits.1 (ground arith) in
      let nothing : cost_at i (some f) ≡ 0 = ground arith in omega (arith, rest)
  | inr costly ↦
      let fewer : suc (total one os) ≤ suc others = ground arith in
      grind (arith, total_cost_at-le i most os h.1, fits.0)
]
