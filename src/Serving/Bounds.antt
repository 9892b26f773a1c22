-- ===== src/Serving/Bounds.antt =====
-- How far past its cap a key may be charged, and what its count of requests in flight is.
use helius.Common.{
  ℕ, zero, suc, Bool, true, false, Option, none, some, List, [], ◌∷◌, ◌++◌, map, ◌≡◌, ◌≢◌, ◌⊎◌,
  refl, ap, sym, subst, ◌∙◌, arith, ◌+◌, ◌*◌, ◌%◌, ◌≤◌, ◌<◌, get_elem?, set, modify, All, nat_eq,
  u32_mod, u64_mod, Bool-cases, ◌==◌, inl, inr,
}
use mathlib.Core.Option.{some-injective}
use helius.Serving.Ledger.{
  Purse, Flight, Ledger, Cause, Post, stay, join, begin, end, lost, reset, depart, arrive, pay,
  unspent,
}
use helius.Serving.Weights.{
  total, one, cost, request_at, cost_at, total-append, total-set, All-set, All-append,
  total_cost_at-le, total_cost_at-le-cap,
}

-- At most one flight that may cost credits more than `others`, each of at most `most` credits.
abbrev pub IsSmall : (others most : ℕ) → List (Option Flight) → Type 0
IsSmall others most os = (total one os ≤ suc others) × All (λ o. cost o ≤ most) os

-- A key may be past its cap by the other flights alone, once all flights to it are charged.
pub record IsBounded (others most i : ℕ) (c : Purse) (os : List (Option Flight)) : Type 0 where
  pub spent : c.used + total (cost_at i) os ≤ c.cap + others * most
  pub fits : All (λ o. cost_at i o ≤ c.cap) os
  pub flying : c.in_flight ≡ total (request_at i) os % u32_mod
  pub room : c.cap + others * most + 1 < u64_mod

abbrev pub AreBounded : (others most : ℕ) → Ledger → Type 0
AreBounded others most l =
    (i : ℕ) (c : Purse) → get_elem? l.purses i ≡ some c → IsBounded others most i c l.flights

get_elem?-modify :
    (f : Purse → Purse) (xs : List Purse) (n i : ℕ) (c : Purse)
    → get_elem? (modify n f xs) i ≡ some c
    → ((n ≢ i) × (get_elem? xs i ≡ some c))
      ⊎ ((n ≡ i) × ((b : Purse) × (get_elem? xs i ≡ some b) × (c ≡ f b)))
get_elem?-modify f [] zero i c h = absurd (ground arith)
get_elem?-modify f [] (suc n) i c h = absurd (ground arith)
get_elem?-modify f (x ∷ xs) zero zero c h = inr (refl, (x, refl, sym (some-injective (f x) c h)))
get_elem?-modify f (x ∷ xs) zero (suc i) c h = inl (omega arith, h)
get_elem?-modify f (x ∷ xs) (suc n) zero c h = inl (omega arith, h)
get_elem?-modify f (x ∷ xs) (suc n) (suc i) c h = elim (get_elem?-modify f xs n i c h) [
  | inl (ne, e) ↦ inl (omega arith, e)
  | inr (same, found) ↦ inr (ap suc same, found)
]

get_elem?-map_inv :
    (f : Purse → Purse) (xs : List Purse) (i : ℕ) (c : Purse)
    → get_elem? (map f xs) i ≡ some c
    → (b : Purse) × (get_elem? xs i ≡ some b) × (c ≡ f b)
get_elem?-map_inv f [] i c h = absurd (ground arith)
get_elem?-map_inv f (x ∷ xs) zero c h = (x, refl, sym (some-injective (f x) c h))
get_elem?-map_inv f (x ∷ xs) (suc i) c h = get_elem?-map_inv f xs i c h

-- A flight to another key weighs nothing.
elsewhere :
    (i : ℕ) (f : Flight) → f.idx ≢ i → (cost_at i (some f) ≡ 0) × (request_at i (some f) ≡ 0)
elsewhere i f ne = ground arith

depart-cap : (b : Bool) (c : Purse) → (depart b c).cap ≡ c.cap
depart-cap true c = refl
depart-cap false c = refl

landed-cap :
    (charged : Bool) (est : ℕ) (b : Bool) (c : Purse) → (pay charged est (arrive b c)).cap ≡ c.cap
landed-cap charged est b c = ground arith

module _ (others most : ℕ) where
  join-IsBounded :
      (i : ℕ) (c : Purse) (os : List (Option Flight))
      → IsBounded others most i c os
      → IsBounded others most i c (os ++ none ∷ [])
  join-IsBounded i c os b = record {
    spent = omega (arith, b.spent, total-append (cost_at i) os none);
    fits = All-append (λ o. cost_at i o ≤ c.cap) os none b.fits (omega arith);
    flying = omega (arith, b.flying, total-append (request_at i) os none);
    room = b.room;
  }

  -- A flight to another key.
  other-IsBounded :
      (i n : ℕ) (c : Purse) (os : List (Option Flight)) (old new : Option Flight)
      → get_elem? os n ≡ some old
      → (cost_at i old ≡ 0) × (request_at i old ≡ 0)
      → (cost_at i new ≡ 0) × (request_at i new ≡ 0)
      → IsBounded others most i c os
      → IsBounded others most i c (set os n new)
  other-IsBounded i n c os old new at before after b = record {
    spent = omega (arith, b.spent, total-set (cost_at i) os n old new at);
    fits = All-set (λ o. cost_at i o ≤ c.cap) os n new b.fits (omega arith);
    flying = omega (arith, b.flying, total-set (request_at i) os n old new at);
    room = b.room;
  }

  begin-IsBounded :
      (n : ℕ) (f : Flight) (c : Purse) (os : List (Option Flight))
      → get_elem? os n ≡ some none
      → c.used + f.est ≤ c.cap
      → IsSmall others most (set os n (some f))
      → All (λ o. cost o ≤ most) os
      → IsBounded others most f.idx c os
      → IsBounded others most f.idx (depart f.is_request c) (set os n (some f))
  begin-IsBounded n f c os at quota small costs b =
      let count = total-set one os n none (some f) at in
      let sums = total-set (cost_at f.idx) os n none (some f) at in
      let requests = total-set (request_at f.idx) os n none (some f) at in
      let here : cost_at f.idx (some f) ≡ f.est = ground arith in
      let spent : (depart f.is_request c).used + total (cost_at f.idx) (set os n (some f))
          ≤ (depart f.is_request c).cap + others * most =
        elim (Bool-cases (f.est == 0)) [
          | inl free ↦ ground arith
          | inr costly ↦
              let fewer : suc (total one os) ≤ suc others = ground arith in
              let others_only : total (cost_at f.idx) os ≤ others * most =
                grind (arith, total_cost_at-le f.idx most os costs) in
              ground arith
        ] in
      record {
        spent = spent;
        fits =
            subst (λ k. All (λ o. cost_at f.idx o ≤ k) (set os n (some f)))
              (sym (depart-cap f.is_request c))
              (All-set (λ o. cost_at f.idx o ≤ c.cap) os n (some f) b.fits (omega arith));
        flying = ground arith;
        room = ground arith;
      }

  end-IsBounded :
      (n : ℕ) (f : Flight) (charged : Bool) (c : Purse) (os : List (Option Flight))
      → get_elem? os n ≡ some (some f)
      → IsBounded others most f.idx c os
      → IsBounded others most f.idx (pay charged f.est (arrive f.is_request c)) (set os n none)
  end-IsBounded n f charged c os at b =
      let sums = total-set (cost_at f.idx) os n (some f) none at in
      let requests = total-set (request_at f.idx) os n (some f) none at in
      let here : cost_at f.idx (some f) ≡ f.est = ground arith in
      record {
        spent = ground arith;
        fits =
            subst (λ k. All (λ o. cost_at f.idx o ≤ k) (set os n none))
              (sym (landed-cap charged f.est f.is_request c))
              (All-set (λ o. cost_at f.idx o ≤ c.cap) os n none b.fits (omega arith));
        flying = ground arith;
        room = ground arith;
      }

  -- A flight that is lost is charged no more, and stays in flight.
  lost-IsBounded :
      (i n : ℕ) (f : Flight) (c : Purse) (os : List (Option Flight))
      → get_elem? os n ≡ some (some f)
      → IsBounded others most i c os
      → IsBounded others most i c (set os n (some (record f { est = 0 })))
  lost-IsBounded i n f c os at b =
      let new = record f { est = 0 } in
      let sums = total-set (cost_at i) os n (some f) (some new) at in
      let requests = total-set (request_at i) os n (some f) (some new) at in
      let free : cost_at i (some new) ≡ 0 = ground arith in
      record {
        spent = omega (arith, b.spent);
        fits = All-set (λ o. cost_at i o ≤ c.cap) os n (some new) b.fits (omega arith);
        flying = omega (arith, b.flying);
        room = b.room;
      }

  reset-IsBounded :
      (i : ℕ) (c : Purse) (os : List (Option Flight))
      → IsSmall others most os
      → IsBounded others most i c os
      → IsBounded others most i (unspent c) os
  reset-IsBounded i c os small b = record {
    spent = omega (arith, total_cost_at-le-cap i c.cap most others os small.1 b.fits small.0);
    fits = b.fits;
    flying = b.flying;
    room = b.room;
  }

  -- Whatever may happen to a ledger keeps every key within its bound, while the flights are few and small.
  pub Post-AreBounded :
      (a b : Ledger)
      → {cause : Cause} → Post a b cause
      → IsSmall others most a.flights
      → IsSmall others most b.flights
      → AreBounded others most a
      → AreBounded others most b
  Post-AreBounded a b (stay may e) small small' h = subst (AreBounded others most) (sym e) h
  Post-AreBounded a b (join e) small small' h =
      subst (AreBounded others most) (sym e) (λ i c at. join-IsBounded i c a.flights (h i c at))
  Post-AreBounded a b (begin n f c free at quota e) small small' h =
      subst (AreBounded others most) (sym e) (λ i c' at'.
        elim (get_elem?-modify (depart f.is_request) a.purses f.idx i c' at') [
          | inl (ne, found) ↦
              other-IsBounded i n c' a.flights none (some f) free (refl, refl) (elsewhere i f ne)
                (h i c' found)
          | inr (same, (p, found, is)) ↦
              let p_c : p ≡ c =
                some-injective p c (sym found ∙ ap (get_elem? a.purses) (sym same) ∙ at) in
              subst (λ j. IsBounded others most j c' (set a.flights n (some f))) same
                (subst (λ q. IsBounded others most f.idx q (set a.flights n (some f)))
                  (sym (is ∙ ap (depart f.is_request) p_c))
                  (begin-IsBounded n f c a.flights free quota
                    (subst (λ l. IsSmall others most l.flights) e small') small.1 (h f.idx c at)))
        ])
  Post-AreBounded a b (end n f charged at e) small small' h =
      subst (AreBounded others most) (sym e) (λ i c' at'.
        elim (get_elem?-modify (λ c. pay charged f.est (arrive f.is_request c)) a.purses f.idx i c'
          at') [
            | inl (ne, found) ↦
                other-IsBounded i n c' a.flights (some f) none at (elsewhere i f ne) (refl, refl)
                  (h i c' found)
            | inr (same, (p, found, is)) ↦
                subst (λ j. IsBounded others most j c' (set a.flights n none)) same
                  (subst (λ q. IsBounded others most f.idx q (set a.flights n none)) (sym is)
                    (end-IsBounded n f charged p a.flights at
                      (h f.idx p (ap (get_elem? a.purses) same ∙ found))))
          ])
  Post-AreBounded a b (lost n f at e) small small' h =
      subst (AreBounded others most) (sym e)
        (λ i c found. lost-IsBounded i n f c a.flights at (h i c found))
  Post-AreBounded a b (reset e) small small' h = subst (AreBounded others most) (sym e) (λ i c' at'.
      let (c, found, is) = get_elem?-map_inv unspent a.purses i c' at' in
      subst (λ q. IsBounded others most i q a.flights) (sym is)
        (reset-IsBounded i c a.flights small (h i c found)))
