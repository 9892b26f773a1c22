-- ===== src/Pool/Choice.antt =====
-- What `Pool::select` promises: which key it picks, when it picks none, and what it changes.
use helius.Common.{
  ℕ, Bool, true, false, Option, none, some, List, ◌≡◌, ◌↔◌, ap, sym, subst, ◌∙◌, arith, ◌+◌, ◌≤◌,
  ◌<◌, length, get_elem?, contains, u64_mod, add_u64, nat_eq, All, All-get_elem?,
}
use mathlib.Core.Option.{some-injective}
use mathlib.Core.Bool.{false≢true}
use helius.Upstream.{Upstream, has_quota_for, in_cooldown, try_acquire}
use helius.Pool.Select.{Pool, Request, select, skips}
use helius.Pool.Frame.{stripped, scan-strip, Round, passed, asked, try_key-Round}
use helius.Pool.Rotation.{visited, visited_onto}
use helius.Pool.Scan.{takes, first_taker, scan-first_taker, first_taker-none, first_taker-some}

-- The caps are below the largest u64, where the sum of `has_quota_for` saturates.
abbrev pub AreCapped : {Limiter : Type 0} → List (Upstream Limiter) → Type 0
AreCapped = All (λ up. up.credit_cap + 1 < u64_mod)

module _ {Limiter : Type 0} (q : Request Limiter) where
  -- A key that may serve the request when its turn comes at a position: it was not tried before, is
  -- enabled, the cost fits under its cap, its cooldown is over, and its bucket has a token.
  pub record MayServe (off idx : ℕ) (ups : List (Upstream Limiter)) : Type 0 where
    pub up : Upstream Limiter
    pub found : get_elem? ups idx ≡ some up
    pub untried : contains q.skip idx ≡ false
    pub enabled : up.enabled ≡ true
    pub quota : up.credits_used + q.est_cost ≤ up.credit_cap
    pub cooled : up.cooldown_until ≤ q.now_ms
    pub token : (try_acquire q.governor (q.clock off) q.class up).0 ≡ true

  pub skips-false :
      (up : Upstream Limiter)
      → up.credit_cap + 1 < u64_mod
      → (skips q.est_cost q.now_ms up ≡ false) ↔ (
          (up.enabled ≡ true)
          × (up.credits_used + q.est_cost ≤ up.credit_cap)
          × (up.cooldown_until ≤ q.now_ms))
  unfolding skips has_quota_for in_cooldown
  skips-false up cap = ground arith

  Round-MayServe :
      {off idx : ℕ} {ups : List (Upstream Limiter)}
      → AreCapped ups
      → Round q off idx ups
      → takes q off idx ups ≡ true
      → MayServe off idx ups
  Round-MayServe capped (passed e _) h = absurd (cc)
  Round-MayServe {off} {idx} {ups} capped (asked up untried found fit e) h =
      let (enabled, quota, cooled) =
        (skips-false up (All-get_elem? _ ups idx up capped found)).0 fit in
      record {
        up = up;
        found = found;
        untried = untried;
        enabled = enabled;
        quota = quota;
        cooled = cooled;
        token = sym (ap (λ (r : Bool × List (Upstream Limiter)). r.0) e) ∙ h;
      }

  Round-takes :
      {off idx : ℕ} {ups : List (Upstream Limiter)}
      → AreCapped ups
      → Round q off idx ups
      → MayServe off idx ups
      → takes q off idx ups ≡ true
  Round-takes {off} {idx} {ups} capped (passed _ unfit) m =
      let fit =
        (skips-false m.up (All-get_elem? _ ups idx m.up capped m.found)).1
          (m.enabled, m.quota, m.cooled) in
      absurd (false≢true (sym fit ∙ unfit m.untried m.up m.found))
  Round-takes {off} {idx} {ups} capped (asked up _ found _ e) m =
      let same : m.up ≡ up = some-injective _ _ (sym m.found ∙ found) in
      ap (λ (r : Bool × List (Upstream Limiter)). r.0) e
      ∙ subst (λ u. (try_acquire q.governor (q.clock off) q.class u).0 ≡ true) same m.token

  pub takes-MayServe :
      (off idx : ℕ) (ups : List (Upstream Limiter))
      → AreCapped ups
      → (takes q off idx ups ≡ true) ↔ MayServe off idx ups
  takes-MayServe off idx ups capped = (
    Round-MayServe capped (try_key-Round q off idx ups),
    Round-takes capped (try_key-Round q off idx ups),
  )

  pub select-first_taker :
      (p : Pool Limiter)
      → p.cursor + length p.upstreams ≤ u64_mod
      → (select q p).0
        ≡ first_taker q (length p.upstreams) (length p.upstreams) p.cursor 0 p.upstreams
  unfolding select first_taker
  select-first_taker p small =
      ground
        (arith, scan-first_taker q (length p.upstreams) (length p.upstreams) p.cursor 0 p.upstreams)

  -- `select` picks the first key of the rotation that starts at the cursor among those that may serve
  -- the request: the picked one may, and none that the rotation reaches before it.
  pub select-some :
      (p p' : Pool Limiter) (idx : ℕ)
      → AreCapped p.upstreams
      → p.cursor + length p.upstreams ≤ u64_mod
      → select q p ≡ (some idx, p')
      → (k : ℕ) × (k < length p.upstreams)
        × (idx ≡ visited (length p.upstreams) p.cursor k)
        × MayServe k idx p.upstreams
        × ((j : ℕ) → j < k → ¬ MayServe j (visited (length p.upstreams) p.cursor j) p.upstreams)
  select-some p p' idx capped small e =
      let (k, _, lt, at, taken, before) =
        first_taker-some q (length p.upstreams) (length p.upstreams) p.cursor 0 idx p.upstreams
          (sym (select-first_taker p small) ∙ ap (λ (r : Option ℕ × Pool Limiter). r.0) e) in
      (
        k,
        omega arith,
        at,
        (takes-MayServe k idx p.upstreams capped).0 taken,
        λ j below m. absurd (
            false≢true
              (sym (before j (omega arith) below) ∙ (takes-MayServe j _ p.upstreams capped).1 m)),
      )

  -- `select` picks no key only where no key may serve the request at its turn in the rotation, and
  -- every key has its turn.
  pub select-none :
      (p p' : Pool Limiter) (idx : ℕ)
      → AreCapped p.upstreams
      → p.cursor + length p.upstreams ≤ u64_mod
      → select q p ≡ (none, p')
      → idx < length p.upstreams
      → (k : ℕ) × (k < length p.upstreams)
        × (idx ≡ visited (length p.upstreams) p.cursor k)
        × ¬ MayServe k idx p.upstreams
  select-none p p' idx capped small e lt =
      let (k, bound, at) = visited_onto (length p.upstreams) p.cursor idx small lt in
      let refused =
        first_taker-none q (length p.upstreams) (length p.upstreams) p.cursor 0 p.upstreams
          (sym (select-first_taker p small) ∙ ap (λ (r : Option ℕ × Pool Limiter). r.0) e) k
          (omega arith) (omega arith) in
      (
        k,
        bound,
        sym at,
        λ m. false≢true (
            sym refused
            ∙ (takes-MayServe k _ p.upstreams capped).1
                (subst (λ i. MayServe k i p.upstreams) (sym at) m)),
      )

  -- `select` moves the cursor by one and changes nothing of a key but its token buckets.
  pub select-stripped :
      (p : Pool Limiter)
      → (stripped (select q p).1.upstreams ≡ stripped p.upstreams)
        × (0 < length p.upstreams → (select q p).1.cursor ≡ add_u64 p.cursor 1)
  unfolding select
  select-stripped p =
      ground (arith, scan-strip q (length p.upstreams) (length p.upstreams) p.cursor 0 p.upstreams)
