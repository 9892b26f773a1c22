-- ===== src/Serving/Reached.antt =====
-- What holds of every system that a fresh one leads to, while few requests are in flight at a time.
use helius.Common.{
  ℕ, zero, suc, Option, some, List, [], ◌∷◌, map, ◌≡◌, refl, sym, subst, arith, ◌+◌, ◌*◌, ◌%◌, ◌≤◌,
  ◌<◌, get_elem?, get_elem?-map, All, u32_mod, u64_mod,
}
use mathlib.Core.Option.{some-injective}
use helius.Upstream.{Upstream}
use helius.Proxy.{Libraries}
use helius.Serving.System.{System, Move, step}
use helius.Serving.Ledger.{Purse, Flight}
use helius.Serving.Weights.{total, cost_at, request_at}
use helius.Serving.Bounds.{IsSmall, IsBounded, AreBounded, Post-AreBounded}
use helius.Serving.Purses.{flight_of, purse, purses, ledger}
use helius.Serving.Simulation.{step-Post}

-- The flights of the tasks of a system.
abbrev pub flights : {Limiter Url : Type 0} → System Limiter Url → List (Option Flight)
flights s = map flight_of s.tasks

-- The systems that moves in any order lead to, with at most one flight that may cost credits more than `others`
-- at each time, and at most `most` credits on each.
pub data Reach {Limiter Url : Type 0} (lib : Libraries Limiter Url) (others most : ℕ)
    (s : System Limiter Url) : System Limiter Url → Type 0 where
  here : Reach lib others most s s
  next :
      {t : System Limiter Url}
      → Reach lib others most s t
      → (m : Move Url) → IsSmall others most (flights (step lib m t))
      → Reach lib others most s (step lib m t)

module _ {Limiter : Type 0} where
  -- A key before the first request, with room for the flights in a u64.
  abbrev pub IsFresh : (others most : ℕ) → Upstream Limiter → Type 0
  IsFresh others most up =
      (up.credits_used ≤ up.credit_cap)
      × (up.in_flight ≡ 0)
      × (up.credit_cap + others * most + 1 < u64_mod)

  fresh-IsBounded :
      (others most i : ℕ) (ups : List (Upstream Limiter)) (j : ℕ) (c : Purse)
      → All (IsFresh others most) ups
      → get_elem? (purses ups) j ≡ some c
      → IsBounded others most i c []
  fresh-IsBounded others most i [] j c h at = absurd (ground arith)
  fresh-IsBounded others most i (u ∷ ups) zero c h at =
      subst (λ d. IsBounded others most i d []) (some-injective (purse u) c at)
        (record {
          spent = omega (arith, h.0);
          fits = tt;
          flying = omega (arith, h.0);
          room = omega (arith, h.0);
        })
  fresh-IsBounded others most i (u ∷ ups) (suc j) c h at =
      fresh-IsBounded others most i ups j c h.1 at

  -- Caps that leave room one by one do so all together.
  capped_purses :
      (ups : List (Upstream Limiter))
      → ((i : ℕ) (c : Purse) → get_elem? (purses ups) i ≡ some c → c.cap + 1 < u64_mod)
      → All (λ up. up.credit_cap + 1 < u64_mod) ups
  capped_purses [] h = tt
  capped_purses (u ∷ ups) h = (h 0 (purse u) refl, capped_purses ups (λ i c at. h (suc i) c at))

module _ {Limiter Url : Type 0} (lib : Libraries Limiter Url) (others most : ℕ) where
  Reach-IsSmall :
      {s t : System Limiter Url}
      → s.tasks ≡ []
      → Reach lib others most s t
      → IsSmall others most (flights t)
  Reach-IsSmall {s} none_begun here =
      subst (λ ts. IsSmall others most (map flight_of ts)) (sym none_begun) (omega arith, tt)
  Reach-IsSmall none_begun (next r m small) = small

  Reach-AreBounded :
      {s t : System Limiter Url}
      → s.tasks ≡ []
      → All (IsFresh others most) s.app.pool.upstreams
      → Reach lib others most s t
      → AreBounded others most (ledger t)
  Reach-AreBounded {s} none_begun fresh here = λ i c at.
      subst (λ ts. IsBounded others most i c (map flight_of ts)) (sym none_begun)
        (fresh-IsBounded others most i s.app.pool.upstreams i c fresh at)
  Reach-AreBounded none_begun fresh (next {t} r m small) =
      let before = Reach-AreBounded none_begun fresh r in
      Post-AreBounded others most (ledger t) (ledger (step lib m t))
        (step-Post lib t m
          (capped_purses t.app.pool.upstreams (λ i c at. omega (arith, (before i c at).room))))
        (Reach-IsSmall none_begun r) small before

-- In every system that a fresh one leads to, by requests, hang-ups, pings and rollovers that interleave in any
-- order, a key is past its cap by at most the credits of the other flights, even when all that may still be
-- charged for its flights is, and counts as in flight the requests that wait for its reply and those whose
-- clients hung up while they waited for it, modulo 2^32. At each time there is at most one flight that may cost
-- credits more than `others`, each of at most `most` credits; the first system has no tasks, and its keys are
-- within their caps, with nothing in flight and with room for the flights below the largest u64.
pub Reach-within :
    {Limiter Url : Type 0} (lib : Libraries Limiter Url) (others most : ℕ)
    (s t : System Limiter Url) (i : ℕ) (up : Upstream Limiter)
    → s.tasks ≡ []
    → All (IsFresh others most) s.app.pool.upstreams
    → Reach lib others most s t
    → get_elem? t.app.pool.upstreams i ≡ some up
    → (up.credits_used + total (cost_at i) (flights t) ≤ up.credit_cap + others * most)
      × (up.in_flight ≡ total (request_at i) (flights t) % u32_mod)
Reach-within lib others most s t i up none_begun fresh r at =
    let b =
      Reach-AreBounded lib others most none_begun fresh r i (purse up)
        (get_elem?-map purse t.app.pool.upstreams i up at) in
    (b.spent, b.flying)
