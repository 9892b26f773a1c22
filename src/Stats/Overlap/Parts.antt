-- ===== src/Stats/Overlap/Parts.antt =====
-- The sums over the keys before and behind an index, and what a charge, a reading and a reset do to them.
use helius.Common.{
  ℕ, zero, suc, ◌+◌, ◌<◌, ◌≡◌, refl, arith, none, some, List, [], ◌∷◌, nat_eq, ltb, leb,
  if◌then◌else◌, get_elem?, modify, drop, u64_mod,
}
use helius.Upstream.{Upstream, reset_monthly, add_credits}
use helius.Stats.Ledger.{used, lifetime, charge_key}
use helius.Stats.Overlap.{charged}

module _ {Limiter : Type 0} where
  -- The credits used by the keys before an index.
  abbrev pub used_before : ℕ → List (Upstream Limiter) → ℕ
  used_before zero ups = 0
  used_before (suc n) [] = 0
  used_before (suc n) (u ∷ ups) = u.credits_used + used_before n ups

  pub used-drop_read :
      (n : ℕ) (ups : List (Upstream Limiter)) (u : Upstream Limiter)
      → get_elem? ups n ≡ some u
      → used (drop n ups) ≡ u.credits_used + used (drop (suc n) ups)
  used-drop_read zero [] u h = ground arith
  used-drop_read (suc n) [] u h = ground arith
  used-drop_read zero (x ∷ ups) u h = ground arith
  used-drop_read (suc n) (x ∷ ups) u h = used-drop_read n ups u h

  pub used-drop_end :
      (n : ℕ) (ups : List (Upstream Limiter)) → get_elem? ups n ≡ none → used (drop n ups) ≡ 0
  used-drop_end zero [] h = refl
  used-drop_end (suc n) [] h = refl
  used-drop_end zero (x ∷ ups) h = ground arith
  used-drop_end (suc n) (x ∷ ups) h = used-drop_end n ups h

  pub used_before_end :
      (n : ℕ) (ups : List (Upstream Limiter))
      → get_elem? ups n ≡ none
      → used_before n ups ≡ used ups
  used_before_end zero [] h = refl
  used_before_end (suc n) [] h = refl
  used_before_end zero (x ∷ ups) h = ground arith
  used_before_end (suc n) (x ∷ ups) h = omega (arith, used_before_end n ups h)

  pub used_before-reset :
      (cur n : ℕ) (ups : List (Upstream Limiter))
      → (used_before (suc n) (modify n (reset_monthly cur) ups) ≡ used_before n ups)
        × (lifetime (modify n (reset_monthly cur) ups) ≡ lifetime ups)
  unfolding reset_monthly
  used_before-reset cur zero [] = (refl, refl)
  used_before-reset cur (suc n) [] = (refl, refl)
  used_before-reset cur zero (x ∷ ups) = (refl, refl)
  used_before-reset cur (suc n) (x ∷ ups) = omega (arith, used_before-reset cur n ups)

  pub lifetime-charge :
      (idx cost : ℕ) (ups : List (Upstream Limiter))
      → lifetime ups + cost < u64_mod
      → lifetime (charge_key idx cost ups) ≡ lifetime ups + charged idx cost ups
  unfolding charge_key add_credits
  lifetime-charge zero cost [] l = ground arith
  lifetime-charge (suc idx) cost [] l = ground arith
  lifetime-charge zero cost (x ∷ ups) l = ground arith
  lifetime-charge (suc idx) cost (x ∷ ups) l = ground (arith, lifetime-charge idx cost ups)

  pub used-charge :
      (idx cost : ℕ) (ups : List (Upstream Limiter))
      → used ups + cost < u64_mod
      → used (charge_key idx cost ups) ≡ used ups + charged idx cost ups
  unfolding charge_key add_credits
  used-charge zero cost [] l = ground arith
  used-charge (suc idx) cost [] l = ground arith
  used-charge zero cost (x ∷ ups) l = ground arith
  used-charge (suc idx) cost (x ∷ ups) l = ground (arith, used-charge idx cost ups)

  -- A charge of a key behind the index counts, and one of a key before it does not.
  pub used-drop-charge :
      (n idx cost : ℕ) (ups : List (Upstream Limiter))
      → used (drop n ups) + cost < u64_mod
      → used (drop n (charge_key idx cost ups))
        ≡ used (drop n ups) + (if ltb idx n then 0 else charged idx cost ups)
  unfolding charge_key
  used-drop-charge zero idx cost ups l = ground (arith, used-charge idx cost ups)
  used-drop-charge (suc n) zero cost [] l = ground arith
  used-drop-charge (suc n) (suc idx) cost [] l = ground arith
  used-drop-charge (suc n) zero cost (x ∷ ups) l = ground arith
  used-drop-charge (suc n) (suc idx) cost (x ∷ ups) l =
      ground (arith, used-drop-charge n idx cost ups)

  pub used_before-charge :
      (n idx cost : ℕ) (ups : List (Upstream Limiter))
      → used_before n ups + cost < u64_mod
      → used_before n (charge_key idx cost ups)
        ≡ used_before n ups + (if leb n idx then 0 else charged idx cost ups)
  unfolding charge_key add_credits
  used_before-charge zero idx cost ups l = ground arith
  used_before-charge (suc n) zero cost [] l = ground arith
  used_before-charge (suc n) (suc idx) cost [] l = ground arith
  used_before-charge (suc n) zero cost (x ∷ ups) l = ground arith
  used_before-charge (suc n) (suc idx) cost (x ∷ ups) l =
      ground (arith, used_before-charge n idx cost ups)
