-- ===== src/Pool/Fairness.antt =====
-- Round robin: the cursor takes the first turn to every key in as many selections as there are keys.
use helius.Common.{
  ℕ, zero, suc, true, some, List, ◌≡◌, refl, ap, sym, subst, ◌∙◌, arith, ◌+◌, ◌*◌, ◌%◌, ◌≤◌, ◌<◌,
  length, length-map, u64_mod, add_u64,
}
use helius.Upstream.{Upstream}
use helius.Pool.Select.{Pool, Request, select}
use helius.Pool.Frame.{strip}
use helius.Pool.Rotation.{visited, visited_onto}
use helius.Pool.Scan.{takes, first_taker}
use helius.Pool.Choice.{MayServe, AreCapped, takes-MayServe, select-first_taker, select-stripped}

module _ {Limiter : Type 0} where
  first_taker-first :
      (q : Request Limiter) (left n base : ℕ) (ups : List (Upstream Limiter))
      → 0 < left
      → takes q 0 (visited n base 0) ups ≡ true
      → first_taker q left n base 0 ups ≡ some (visited n base 0)
  unfolding first_taker
  first_taker-first q zero n base ups some_left taken = absurd (omega arith)
  first_taker-first q (suc left) n base ups some_left taken = rw taken refl

  -- A key that the rotation reaches first, and that may serve, is the one that is picked.
  select-first :
      (q : Request Limiter) (p : Pool Limiter) (idx : ℕ)
      → AreCapped p.upstreams
      → p.cursor + length p.upstreams ≤ u64_mod
      → 0 < length p.upstreams
      → visited (length p.upstreams) p.cursor 0 ≡ idx
      → MayServe q 0 idx p.upstreams
      → (select q p).0 ≡ some idx
  select-first q p idx capped small some_key at serves =
      let n = length p.upstreams in
      let taken =
        subst (λ i. takes q 0 i p.upstreams ≡ true) (sym at)
          ((takes-MayServe q 0 idx p.upstreams capped).1 serves) in
      select-first_taker q p small
      ∙ first_taker-first q n n p.cursor p.upstreams some_key taken
      ∙ ap some at

  -- The pool before each selection, where anything may happen to the keys between two selections.
  unfoldable pub after :
      (ask : ℕ → Request Limiter) (between : ℕ → List (Upstream Limiter) → List (Upstream Limiter))
      → ℕ
      → Pool Limiter
      → Pool Limiter
  after ask between zero p = p
  after ask between (suc k) p =
      let q = (select (ask k) (after ask between k p)).1 in
      record q { upstreams = between k q.upstreams }

  pub length-select :
      (q : Request Limiter) (p : Pool Limiter)
      → length (select q p).1.upstreams ≡ length p.upstreams
  length-select q p =
      let keys = ap length (select-stripped q p).0 in
      omega (arith, keys, length-map strip (select q p).1.upstreams, length-map strip p.upstreams)

  after_lem :
      (ask : ℕ → Request Limiter) (between : ℕ → List (Upstream Limiter) → List (Upstream Limiter))
      (p : Pool Limiter)
      → ((k : ℕ) (ups : List (Upstream Limiter)) → length (between k ups) ≡ length ups)
      → 0 < length p.upstreams
      → (k : ℕ) → p.cursor + k < u64_mod
      → (length (after ask between k p).upstreams ≡ length p.upstreams)
        × ((after ask between k p).cursor ≡ p.cursor + k)
  unfolding after
  after_lem ask between p steady some_key zero small = (refl, omega arith)
  after_lem ask between p steady some_key (suc k) small =
      let (len, cur) = after_lem ask between p steady some_key k (omega arith) in
      let before = after ask between k p in
      let (_, moved) = select-stripped (ask k) before in
      (
        steady k (select (ask k) before).1.upstreams ∙ length-select (ask k) before ∙ len,
        omega (arith, moved (omega arith)),
      )

-- A key that may serve whenever it has the first turn is selected within as many selections as there are
-- keys, whatever the requests ask for, and whatever happens to the keys between two selections, as long as
-- their number stays. The caps are below the largest u64, and the cursor is two rounds short of it.
pub select-fair :
    {Limiter : Type 0} (ask : ℕ → Request Limiter)
    (between : ℕ → List (Upstream Limiter) → List (Upstream Limiter)) (p : Pool Limiter) (idx : ℕ)
    → ((k : ℕ) (ups : List (Upstream Limiter)) → length (between k ups) ≡ length ups)
    → idx < length p.upstreams
    → p.cursor + 2 * length p.upstreams ≤ u64_mod
    → ((k : ℕ) → AreCapped (after ask between k p).upstreams)
    → ((k : ℕ)
        → visited (length (after ask between k p).upstreams) (after ask between k p).cursor 0 ≡ idx
        → MayServe (ask k) 0 idx (after ask between k p).upstreams)
    → (k : ℕ) × (k < length p.upstreams) × ((select (ask k) (after ask between k p)).0 ≡ some idx)
select-fair ask between p idx steady lt small capped serves =
    let (k, bound, at) = visited_onto (length p.upstreams) p.cursor idx (omega arith) lt in
    let (len, cur) = after_lem ask between p steady (omega arith) k (omega arith) in
    let now = after ask between k p in
    let shifted : add_u64 (p.cursor + k) 0 ≡ add_u64 p.cursor k = omega arith in
    let first : visited (length now.upstreams) now.cursor 0 ≡ idx =
      rw (len, cur) (ap (λ c. c % length p.upstreams) shifted ∙ at) in
    (
      k,
      bound,
      select-first (ask k) now idx (capped k) (omega arith) (omega arith) first (serves k first),
    )
