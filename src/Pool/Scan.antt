-- ===== src/Pool/Scan.antt =====
-- The scan of `Pool::select` threads the keys through its rounds; here it is shown to find what a plain
-- search over the keys before the scan finds, since a round only changes a key that no later round
-- visits.
use helius.Common.{
  ℕ, zero, suc, Bool, true, false, Option, none, some, List, ◌≡◌, ◌≢◌, refl, ap, sym, subst, ltb,
  ltb→lt, ◌∙◌, arith, ◌+◌, ◌≤◌, ◌<◌, get_elem?, get_elem?-set_ne, if◌then◌else◌, Bool-cases, inl,
  inr, u64_mod, nat_eq,
}
use mathlib.Core.Option.{some-injective}
use helius.Upstream.{Upstream}
use helius.Pool.Select.{Request, try_key, scan}
use helius.Pool.Frame.{Round, passed, asked, try_key-Round}
use helius.Pool.Rotation.{visited, visited-ne}

module _ {Limiter : Type 0} (q : Request Limiter) where
  -- Whether the round at a position takes the key at an index.
  abbrev pub takes : (off idx : ℕ) → List (Upstream Limiter) → Bool
  takes off idx ups = (try_key q off idx ups).0

  -- The first position from `off` on, among `left`, that takes its key.
  unfoldable pub first_taker : (left n base off : ℕ) → List (Upstream Limiter) → Option ℕ
  first_taker zero n base off ups = none
  first_taker (suc left) n base off ups =
      let rest = first_taker left n base (suc off) ups in
      if takes off (visited n base off) ups then some (visited n base off) else rest

  Round-other :
      {off idx : ℕ} {ups : List (Upstream Limiter)} (j : ℕ)
      → Round q off idx ups
      → idx ≢ j
      → get_elem? (try_key q off idx ups).1 j ≡ get_elem? ups j
  Round-other {ups = ups} j (passed e _) h =
      ap (λ (r : Bool × List (Upstream Limiter)). get_elem? r.1 j) e
  Round-other {off} {idx} {ups} j (asked up _ found _ e) h =
      ap (λ (r : Bool × List (Upstream Limiter)). get_elem? r.1 j) e
      ∙ get_elem?-set_ne ups idx j _ h

  takes-cong :
      (off idx : ℕ) (ups ups' : List (Upstream Limiter))
      → get_elem? ups idx ≡ get_elem? ups' idx
      → takes off idx ups ≡ takes off idx ups'
  unfolding try_key
  takes-cong off idx ups ups' e = ground arith

  first_taker-cong :
      (left n base off : ℕ) (ups ups' : List (Upstream Limiter))
      → ((j : ℕ)
          → off ≤ j
          → j < off + left
          → get_elem? ups (visited n base j) ≡ get_elem? ups' (visited n base j))
      → first_taker left n base off ups ≡ first_taker left n base off ups'
  unfolding first_taker
  first_taker-cong zero n base off ups ups' h = refl
  first_taker-cong (suc left) n base off ups ups' h =
      let here = takes-cong off (visited n base off) ups ups' (h off (omega arith) (omega arith)) in
      let later =
        first_taker-cong left n base (suc off) ups ups'
          (λ j ge lt. h j (omega arith) (omega arith)) in
      rw (here, later)

  -- The scan finds the first key of the rotation that the keys before the scan allow.
  pub scan-first_taker :
      (left n base off : ℕ) (ups : List (Upstream Limiter))
      → left ≤ n
      → base + off + left ≤ u64_mod
      → (scan q left n base off ups).0 ≡ first_taker left n base off ups
  unfolding scan first_taker
  scan-first_taker zero n base off ups le small = refl
  scan-first_taker (suc left) n base off ups le small =
      elim (Bool-cases (takes off (visited n base off) ups)) [
        | inl taken ↦ rw taken
        | inr refused ↦ rw refused (
            scan-first_taker left n base (suc off) _ (omega arith) (omega arith)
            ∙ first_taker-cong left n base (suc off) _ ups (λ j ge lt.
              Round-other (visited n base j) (try_key-Round q off (visited n base off) ups)
                (λ e. visited-ne n base off j (omega arith) (omega arith) (omega arith) (sym e))))
      ]

  -- What a search that fails, and one that finds an index, say of the positions.
  pub first_taker-none :
      (left n base off : ℕ) (ups : List (Upstream Limiter))
      → first_taker left n base off ups ≡ none
      → (j : ℕ) → off ≤ j
      → j < off + left
      → takes j (visited n base j) ups ≡ false
  unfolding first_taker
  first_taker-none zero n base off ups e j ge lt = absurd (omega arith)
  first_taker-none (suc left) n base off ups e j ge lt =
      elim (Bool-cases (takes off (visited n base off) ups)) [
        | inl taken ↦ absurd (ground arith)
        | inr refused ↦ elim (Bool-cases (ltb off j)) [
          | inl later ↦
              first_taker-none left n base (suc off) ups (rw refused at e) j (ltb→lt off j later)
                (omega arith)
          | inr here ↦
              let same : j ≡ off = ground arith in
              subst (λ i. takes i (visited n base i) ups ≡ false) (sym same) refused
        ]
      ]

  pub first_taker-some :
      (left n base off idx : ℕ) (ups : List (Upstream Limiter))
      → first_taker left n base off ups ≡ some idx
      → (k : ℕ) × (off ≤ k)
        × (k < off + left)
        × (idx ≡ visited n base k)
        × (takes k idx ups ≡ true)
        × ((j : ℕ) → off ≤ j → j < k → takes j (visited n base j) ups ≡ false)
  unfolding first_taker
  first_taker-some zero n base off idx ups e = absurd (ground arith)
  first_taker-some (suc left) n base off idx ups e =
      elim (Bool-cases (takes off (visited n base off) ups)) [
        | inl taken ↦
            let same : visited n base off ≡ idx = some-injective _ _ (rw taken at e) in
            (
              off,
              omega arith,
              omega arith,
              sym same,
              subst (λ i. takes off i ups ≡ true) same taken,
              λ j ge lt. absurd (omega arith),
            )
        | inr refused ↦
            let (k, ge, lt, at, taken, before) =
              first_taker-some left n base (suc off) idx ups (rw refused at e) in
            (
              k,
              omega arith,
              omega arith,
              at,
              taken,
              λ j from below. elim (Bool-cases (ltb off j)) [
                | inl later ↦ before j (ltb→lt off j later) below
                | inr here ↦
                    let same : j ≡ off = ground arith in
                    subst (λ i. takes i (visited n base i) ups ≡ false) (sym same) refused
              ],
            )
      ]
