-- ===== src/Serving/Work.antt =====
-- A measure of the steps that a request has left, and what each part of a step does to it.
use helius.Common.{
  ℕ, zero, suc, Bool, true, false, ◌&&◌, Option, none, some, List, ◌≡◌, ◌≢◌, refl, ap, sym, subst,
  arith, ◌+◌, ◌*◌, ◌≤◌, ◌<◌, ◌==◌, nat_eq, get_elem?, get_elem?-set_ne, get_elem?-set_self, length,
  length-set,
}
use helius.Credits.{cost_of}
use helius.Upstream.{Upstream}
use helius.Pool.{select}
use helius.Stats.{Stats}
use helius.Proxy.{Libraries, AppState, Turn, Buffered, asking}
use helius.Serving.Task.{
  dropped, Job, Task, ready, waiting, ended, pinging, resting, give_up, depart, after_select, go,
  receive, resume, start_ping,
}
use helius.Serving.System.{
  hang_up, hang_up_task, System, Move, arrive, turn_of, reply_to, spawn_pinger, ping, status_to,
  month, day, turn_task, reply_task, ping_task, status_task, put_back,
}

abbrev pub is_ready : Option Task → Bool
is_ready (some (ready job left skip)) = true
is_ready _ = false

abbrev pub is_waiting : Option Task → Bool
is_waiting (some (waiting job left skip idx now_ms)) = true
is_waiting _ = false

-- Where a task was and may have moved.
abbrev pub moved : Option Task → Option Task → Option Task
moved (some task) found = some task
moved none found = found

abbrev pub one_if : Bool → ℕ
one_if true = 1
one_if false = 0

module _ {Limiter Url : Type 0} where
  -- Whether a move is a step of the request at a position.
  abbrev pub serves : ℕ → Move Url → System Limiter Url → Bool
  serves n (turn_of k turn) s = k == n && is_ready (get_elem? s.tasks k)
  serves n (reply_to k reply) s = k == n && is_waiting (get_elem? s.tasks k)
  serves n (arrive req) s = false
  serves n spawn_pinger s = false
  serves n (ping k idx now_ms) s = false
  serves n (status_to k status) s = false
  serves n (hang_up k) s = false
  serves n (month cur) s = false
  serves n (day cur) s = false

  put_back_there :
      (n : ℕ) (s : System Limiter Url) (r : Option Task × AppState Limiter Url)
      → n < length s.tasks
      → get_elem? (put_back n r s).tasks n ≡ moved r.0 (get_elem? s.tasks n)
  unfolding put_back
  put_back_there n s (none, app) lt = refl
  put_back_there n s (some task, app) lt = get_elem?-set_self s.tasks n task lt

  put_back_elsewhere :
      (n k : ℕ) (s : System Limiter Url) (r : Option Task × AppState Limiter Url)
      → k ≢ n
      → get_elem? (put_back k r s).tasks n ≡ get_elem? s.tasks n
  unfolding put_back
  put_back_elsewhere n k s (none, app) ne = refl
  put_back_elsewhere n k s (some task, app) ne = get_elem?-set_ne s.tasks k n task ne

  pub length-put_back :
      (k : ℕ) (s : System Limiter Url) (r : Option Task × AppState Limiter Url)
      → length (put_back k r s).tasks ≡ length s.tasks
  unfolding put_back
  length-put_back k s (none, app) = refl
  length-put_back k s (some task, app) = length-set s.tasks k task

-- The steps that a request may still take: two for each pass that is left, and one to give up. A pinger, which
-- never ends, stands at `top`, so that a bound below `top` says that the task is a request.
module _ (top : ℕ) where
  abbrev pub work : Task → ℕ
  work (ready job left skip) = 2 * left + 1
  work (waiting job left skip idx now_ms) = 2 * left + 2
  work (ended result) = 0
  work (dropped idx) = 0
  work (pinging idx now_ms cost) = top
  work resting = top

  abbrev pub work_of : Option Task → ℕ
  work_of none = 0
  work_of (some task) = work task

  -- What a step does to a task: it takes the steps away that it counts.
  abbrev pub IsSpent : (after before : Option Task) → Bool → Type 0
  IsSpent after before b = work_of (moved after before) + one_if b ≤ work_of before

  module _ {Limiter Url : Type 0} where
    abbrev pub work_at : ℕ → System Limiter Url → ℕ
    work_at n s = work_of (get_elem? s.tasks n)

    pub put_back-work :
        (n k : ℕ) (s : System Limiter Url) (r : Option Task × AppState Limiter Url) (b same : Bool)
        → (k == n) ≡ same
        → n < length s.tasks
        → IsSpent r.0 (get_elem? s.tasks k) b
        → work_at n (put_back k r s) + one_if (same && b) ≤ work_at n s
    put_back-work n k s r b true e lt h =
        let at : k ≡ n = ground (arith, nat_eq.decides k n) in
        subst
          (λ j.
            IsSpent r.0 (get_elem? s.tasks j) b
            → work_at n (put_back j r s) + one_if b ≤ work_at n s)
          (sym at)
          (λ h. subst (λ o. work_of o + one_if b ≤ work_at n s) (sym (put_back_there n s r lt)) h) h
    put_back-work n k s r b false e lt h =
        let stays =
          put_back_elsewhere n k s r (λ at. absurd (ground (arith, nat_eq.decides k n))) in
        omega (arith, ap work_of stays)

  module _ {Limiter Url : Type 0} (lib : Libraries Limiter Url) where
    selected-work :
        (job : Job) (left : ℕ) (skip : List ℕ) (now_ms : ℕ) (selected : Option ℕ)
        (app : AppState Limiter Url)
        → work (after_select job left skip now_ms selected app).0 ≤ 2 * left + 2
    unfolding after_select depart give_up
    selected-work job left skip now_ms none app = omega arith
    selected-work job left skip now_ms (some idx) app =
        elim (get_elem? app.pool.upstreams idx)
          as (λ o. work (depart job left skip idx now_ms app o).0 ≤ 2 * left + 2) [
            | none ↦ omega arith
            | some up ↦ omega arith
          ]

    go-work :
        (turn : Turn Url) (job : Job) (left : ℕ) (skip : List ℕ) (app : AppState Limiter Url)
        → work (go lib turn job left skip app).0 + 1 ≤ 2 * left + 1
    unfolding go give_up
    go-work turn job zero skip app = omega arith
    go-work turn job (suc left) skip app =
        let (selected, pool) =
          select (asking lib app.upstream_base job.req job.est job.parsed turn skip) app.pool in
        omega (arith, selected-work job left skip turn.now_ms selected (record app { pool = pool }))

    receive-work :
        (job : Job) (left : ℕ) (skip : List ℕ) (idx now_ms : ℕ) (reply : Option Buffered)
        (up : Upstream Limiter) (stats : Stats)
        → work (receive lib job left skip idx now_ms reply up stats).0 ≤ 2 * left + 1
    unfolding receive
    receive-work job left skip idx now_ms reply up stats = ground arith

    resume-work :
        (job : Job) (left : ℕ) (skip : List ℕ) (idx now_ms : ℕ) (reply : Option Buffered)
        (app : AppState Limiter Url) (found : Option (Upstream Limiter))
        → work (resume lib job left skip idx now_ms reply app found).0 + 1 ≤ 2 * left + 2
    unfolding resume
    resume-work job left skip idx now_ms reply app none = omega arith
    resume-work job left skip idx now_ms reply app (some up) =
        omega (arith, receive-work job left skip idx now_ms reply up app.stats)

    pub turn-IsSpent :
        (turn : Turn Url) (task : Option Task) (app : AppState Limiter Url)
        → IsSpent (turn_task lib turn task app).0 task (is_ready task)
    unfolding turn_task
    turn-IsSpent turn (some (ready job left skip)) app = go-work turn job left skip app
    turn-IsSpent turn (some (waiting job left skip idx now_ms)) app = omega arith
    turn-IsSpent turn (some (ended result)) app = omega arith
    turn-IsSpent turn (some (dropped key)) app = omega arith
    turn-IsSpent turn (some (pinging idx now_ms cost)) app = omega arith
    turn-IsSpent turn (some resting) app = omega arith
    turn-IsSpent turn none app = omega arith

    pub reply-IsSpent :
        (reply : Option Buffered) (task : Option Task) (app : AppState Limiter Url)
        → IsSpent (reply_task lib reply task app).0 task (is_waiting task)
    unfolding reply_task
    reply-IsSpent reply (some (ready job left skip)) app = omega arith
    reply-IsSpent reply (some (waiting job left skip idx now_ms)) app =
        resume-work job left skip idx now_ms reply app (get_elem? app.pool.upstreams idx)
    reply-IsSpent reply (some (ended result)) app = omega arith
    reply-IsSpent reply (some (dropped key)) app = omega arith
    reply-IsSpent reply (some (pinging idx now_ms cost)) app = omega arith
    reply-IsSpent reply (some resting) app = omega arith
    reply-IsSpent reply none app = omega arith

  module _ {Limiter : Type 0} where
    start_ping-work :
        (cost idx now_ms : ℕ) (found : Option (Upstream Limiter))
        → work (start_ping cost idx now_ms found) ≤ top
    unfolding start_ping
    start_ping-work cost idx now_ms none = omega arith
    start_ping-work cost idx now_ms (some up) = ground arith

  module _ {Limiter Url : Type 0} where
    pub ping-IsSpent :
        (idx now_ms : ℕ) (task : Option Task) (app : AppState Limiter Url)
        → IsSpent (ping_task idx now_ms task app).0 task false
    unfolding ping_task
    ping-IsSpent idx now_ms (some (ready job left skip)) app = omega arith
    ping-IsSpent idx now_ms (some (waiting job left skip key at)) app = omega arith
    ping-IsSpent idx now_ms (some (ended result)) app = omega arith
    ping-IsSpent idx now_ms (some (dropped key)) app = omega arith
    ping-IsSpent idx now_ms (some (pinging key at cost)) app = omega arith
    ping-IsSpent idx now_ms (some resting) app = omega (
      arith,
      start_ping-work (cost_of app.costs "getHealth") idx now_ms (get_elem? app.pool.upstreams idx),
    )
    ping-IsSpent idx now_ms none app = omega arith

    pub hang_up-IsSpent :
        (task : Option Task) (app : AppState Limiter Url)
        → IsSpent (hang_up_task task app).0 task false
    unfolding hang_up_task
    hang_up-IsSpent (some (ready job left skip)) app = omega arith
    hang_up-IsSpent (some (waiting job left skip idx now_ms)) app = omega arith
    hang_up-IsSpent (some (ended result)) app = omega arith
    hang_up-IsSpent (some (dropped key)) app = omega arith
    hang_up-IsSpent (some (pinging idx now_ms cost)) app = omega arith
    hang_up-IsSpent (some resting) app = omega arith
    hang_up-IsSpent none app = omega arith

    pub status-IsSpent :
        (status : Option ℕ) (task : Option Task) (app : AppState Limiter Url)
        → IsSpent (status_task status task app).0 task false
    unfolding status_task
    status-IsSpent status (some (ready job left skip)) app = omega arith
    status-IsSpent status (some (waiting job left skip idx now_ms)) app = omega arith
    status-IsSpent status (some (ended result)) app = omega arith
    status-IsSpent status (some (dropped key)) app = omega arith
    status-IsSpent status (some (pinging idx now_ms cost)) app = omega arith
    status-IsSpent status (some resting) app = omega arith
    status-IsSpent status none app = omega arith
