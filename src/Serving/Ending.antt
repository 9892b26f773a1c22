-- ===== src/Serving/Ending.antt =====
-- Every request ends: its steps are few, and until it has ended its next step can be taken.
use helius.Common.{
  ℕ, true, false, Option, none, some, List, [], ◌∷◌, ◌≡◌, ◌⊎◌, refl, ap, arith, ◌+◌, ◌*◌, ◌≤◌, ◌<◌,
  ◌==◌, nat_eq, get_elem?, get_elem?_total, length, length-append, get_elem?-append,
  get_elem?-append_last, inl, inr,
}
use helius.Error.{Result}
use helius.Proxy.{Libraries, AppState, Incoming, Buffered, check_gateway_auth}
use helius.Serving.Task.{dropped, Task, ready, waiting, ended, pinging, resting, admit, accept}
use helius.Serving.System.{
  hang_up, hang_up_task, System, Move, arrive, turn_of, reply_to, spawn_pinger, ping, status_to,
  month, day, turn_task, reply_task, ping_task, status_task, step, run,
}
use helius.Serving.Work.{
  hang_up-IsSpent, work, work_of, work_at, serves, one_if, is_ready, is_waiting, length-put_back,
  put_back-work, turn-IsSpent, reply-IsSpent, ping-IsSpent, status-IsSpent,
}

module _ {Limiter Url : Type 0} (lib : Libraries Limiter Url) where
  length-step :
      (m : Move Url) (s : System Limiter Url) → length s.tasks ≤ length (step lib m s).tasks
  unfolding step
  length-step (arrive req) s = omega (arith, length-append s.tasks (accept lib s.app req ∷ []))
  length-step (turn_of k turn) s =
      omega (arith, length-put_back k s (turn_task lib turn (get_elem? s.tasks k) s.app))
  length-step (reply_to k reply) s =
      omega (arith, length-put_back k s (reply_task lib reply (get_elem? s.tasks k) s.app))
  length-step spawn_pinger s = omega (arith, length-append s.tasks (resting ∷ []))
  length-step (ping k idx now_ms) s =
      omega (arith, length-put_back k s (ping_task idx now_ms (get_elem? s.tasks k) s.app))
  length-step (status_to k status) s =
      omega (arith, length-put_back k s (status_task status (get_elem? s.tasks k) s.app))
  length-step (hang_up k) s =
      omega (arith, length-put_back k s (hang_up_task (get_elem? s.tasks k) s.app))
  length-step (month cur) s = omega arith
  length-step (day cur) s = omega arith

  -- How many of the moves are steps of the request at a position.
  abbrev pub served : ℕ → List (Move Url) → System Limiter Url → ℕ
  served n [] s = 0
  served n (m ∷ ms) s = one_if (serves n m s) + served n ms (step lib m s)

  module _ (top : ℕ) where
    -- No move adds to the steps that a request has left, and one that serves it takes one away.
    pub step-work :
        (n : ℕ) (m : Move Url) (s : System Limiter Url)
        → n < length s.tasks
        → work_at top n (step lib m s) + one_if (serves n m s) ≤ work_at top n s
    unfolding step
    step-work n (arrive req) s lt =
        omega (arith, ap (work_of top) (get_elem?-append s.tasks (accept lib s.app req ∷ []) n lt))
    step-work n (turn_of k turn) s lt =
        put_back-work top n k s (turn_task lib turn (get_elem? s.tasks k) s.app)
          (is_ready (get_elem? s.tasks k)) (k == n) refl lt
          (turn-IsSpent top lib turn (get_elem? s.tasks k) s.app)
    step-work n (reply_to k reply) s lt =
        put_back-work top n k s (reply_task lib reply (get_elem? s.tasks k) s.app)
          (is_waiting (get_elem? s.tasks k)) (k == n) refl lt
          (reply-IsSpent top lib reply (get_elem? s.tasks k) s.app)
    step-work n spawn_pinger s lt =
        omega (arith, ap (work_of top) (get_elem?-append s.tasks (resting ∷ []) n lt))
    step-work n (ping k idx now_ms) s lt = omega (
      arith,
      put_back-work top n k s (ping_task idx now_ms (get_elem? s.tasks k) s.app) false (k == n) refl
          lt (ping-IsSpent top idx now_ms (get_elem? s.tasks k) s.app),
    )
    step-work n (status_to k status) s lt = omega (
      arith,
      put_back-work top n k s (status_task status (get_elem? s.tasks k) s.app) false (k == n) refl
          lt (status-IsSpent top status (get_elem? s.tasks k) s.app),
    )
    step-work n (hang_up k) s lt = omega (
      arith,
      put_back-work top n k s (hang_up_task (get_elem? s.tasks k) s.app) false (k == n) refl lt
          (hang_up-IsSpent top (get_elem? s.tasks k) s.app),
    )
    step-work n (month cur) s lt = omega arith
    step-work n (day cur) s lt = omega arith

    pub run-work :
        (n : ℕ) (ms : List (Move Url)) (s : System Limiter Url)
        → n < length s.tasks
        → work_at top n (run lib ms s) + served n ms s ≤ work_at top n s
    unfolding run
    run-work n [] s lt = omega arith
    run-work n (m ∷ ms) s lt = omega (
      arith,
      step-work n m s lt,
      length-step m s,
      run-work n ms (step lib m s) (omega (arith, length-step m s)),
    )

  length-run :
      (ms : List (Move Url)) (s : System Limiter Url) → length s.tasks ≤ length (run lib ms s).tasks
  unfolding run
  length-run [] s = omega arith
  length-run (m ∷ ms) s = omega (arith, length-step m s, length-run ms (step lib m s))

  admit-work :
      (top : ℕ) (app : AppState Limiter Url) (req : Incoming) (auth : Result Unit)
      → work top (admit lib app req auth) ≤ 2 * app.config.gateway.max_retries + 1
  unfolding admit
  admit-work top app req auth = ground arith

-- A request that has its result, or whose client hung up.
abbrev pub IsOver : Option Task → Type 0
IsOver task =
    ((result : Result Buffered) × (task ≡ some (ended result)))
    ⊎ ((idx : ℕ) × (task ≡ some (dropped idx)))

-- A request that stands at the head of its loop, or that waits for a reply.
abbrev pub IsUnderWay : Option Task → Type 0
IsUnderWay task = (is_ready task ≡ true) ⊎ (is_waiting task ≡ true)

-- A task that has fewer steps left than a pinger is a request, and it is over or has a step left.
request_stands :
    (top : ℕ) (task : Option Task) (last : Task) (taken most : ℕ)
    → task ≡ some last
    → work_of top task + taken ≤ most
    → most < top
    → IsOver task ⊎ (IsUnderWay task × (taken < most))
request_stands top (some (ready job left skip)) last taken most e le lt =
    inr (inl refl, omega arith)
request_stands top (some (waiting job left skip idx now_ms)) last taken most e le lt =
    inr (inr refl, omega arith)
request_stands top (some (ended result)) last taken most e le lt = inl (inl (result, refl))
request_stands top (some (dropped idx)) last taken most e le lt = inl (inr (idx, refl))
request_stands top (some (pinging idx now_ms cost)) last taken most e le lt = absurd (omega arith)
request_stands top (some resting) last taken most e le lt = absurd (omega arith)
request_stands top none last taken most e le lt = absurd (ground arith)

-- A request that arrives takes at most `2 * max_retries + 1` steps of its own, whatever moves of other tasks come
-- between them; and after any moves it has ended with a result, or its client hung up, or it stands at the head of
-- its loop or waits for a reply, and then it has taken fewer steps than that.
pub arrive-ends :
    {Limiter Url : Type 0} (lib : Libraries Limiter Url) (s : System Limiter Url) (req : Incoming)
    (ms : List (Move Url))
    → let n = length s.tasks in
      let begun = step lib (arrive req) s in
      let task = get_elem? (run lib ms begun).tasks n in
      let most = 2 * s.app.config.gateway.max_retries + 1 in
      (served lib n ms begun ≤ most)
      × (IsOver task ⊎ (IsUnderWay task × (served lib n ms begun < most)))
unfolding step accept
arrive-ends lib s req ms =
    let n = length s.tasks in
    let begun = step lib (arrive req) s in
    let top = 2 * s.app.config.gateway.max_retries + 2 in
    let task = accept lib s.app req in
    let new = get_elem?-append_last s.tasks task in
    let here : n < length begun.tasks = omega (arith, length-append s.tasks (task ∷ [])) in
    let (last, found) =
      get_elem?_total (run lib ms begun).tasks n (omega (arith, length-run lib ms begun)) in
    let bound : work_at top n (run lib ms begun) + served lib n ms begun
        ≤ 2 * s.app.config.gateway.max_retries + 1 =
      omega (
        arith,
        run-work lib top n ms begun here,
        ap (work_of top) new,
        admit-work lib top s.app req
            (check_gateway_auth lib.http s.app.config.gateway.api_key req.uri req.headers),
      ) in
    (
      omega (arith, bound),
      request_stands top (get_elem? (run lib ms begun).tasks n) last (served lib n ms begun)
          (2 * s.app.config.gateway.max_retries + 1) found bound (omega arith),
    )
