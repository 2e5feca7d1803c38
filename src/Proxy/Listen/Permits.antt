-- ===== src/Proxy/Listen/Permits.antt =====
-- The semaphore of `listen_loop`: permits are neither lost nor made.
use dlna_proxy.Common.{ℕ, zero, suc, ◌+◌, ◌-◌, ◌≤◌, false, ◌⊎◌, inl, inr, ◌≡◌, ◌≢◌, refl, arith}
use dlna_proxy.Proxy.Listen.{
  max_concurrent_connections, Phase, accepting, acquiring, connecting, stopped, Listener, Step,
  accept_client, accept_error, acquire, semaphore_closed, connect_origin, connect_error,
  connect_timeout, handler_done, Reach, start, next,
}

-- the permit that the loop itself holds
abbrev pub held : Phase → ℕ
held accepting = 0
held acquiring = 0
held connecting = 1
held stopped = 0

pub record IsBalanced (s : Listener) : Type 0 where
  pub permits : s.free + s.active + held s.phase ≡ max_concurrent_connections
  pub open_semaphore : s.closed ≡ false
  pub runs : s.phase ≢ stopped

phase_held : {p q : Phase} → p ≡ q → held p ≡ held q
phase_held e = ap_held e
  where
    ap_held : {p q : Phase} → p ≡ q → held p ≡ held q
    ap_held e = cc

Step-IsBalanced : {s t : Listener} → Step s t → IsBalanced s → IsBalanced t
Step-IsBalanced (accept_client p) b = ground (arith, phase_held p)
Step-IsBalanced (accept_error p) b = b
Step-IsBalanced (acquire p o f) b = ground (arith, phase_held p)
Step-IsBalanced (semaphore_closed p c) b = ground arith
Step-IsBalanced (connect_origin p) b = ground (arith, phase_held p)
Step-IsBalanced (connect_error p) b = ground (arith, phase_held p)
Step-IsBalanced (connect_timeout p) b = ground (arith, phase_held p)
Step-IsBalanced (handler_done h) b = ground arith

Reach-IsBalanced : {s : Listener} → Reach s → IsBalanced s
Reach-IsBalanced start = ground arith
Reach-IsBalanced (next r st) = Step-IsBalanced st (Reach-IsBalanced r)

-- In every reachable state the permits that are free, those of the handlers and the one of the loop
-- add up to 100; so at most 100 handlers run. The loop never stops.
pub Reach-permits :
    {s : Listener}
    → Reach s
    → (s.free + s.active + held s.phase ≡ max_concurrent_connections)
      × (s.active ≤ max_concurrent_connections)
      × (s.phase ≢ stopped)
Reach-permits r = let b = Reach-IsBalanced r in (b.permits, omega (arith, b.permits), b.runs)

-- A client waits for a permit only while exactly 100 handlers run; as soon as one is done, it can go on.
pub acquiring_progress :
    {s : Listener}
    → Reach s
    → s.phase ≡ acquiring
    → Step s (record s { phase = connecting; free = s.free - 1 })
      ⊎ ((s.active ≡ max_concurrent_connections)
          × Step s (record s { free = s.free + 1; active = s.active - 1 }))
acquiring_progress {s} r p = let b = Reach-IsBalanced r in progress s.free b refl
  where
    progress :
        (n : ℕ)
        → IsBalanced s
        → s.free ≡ n
        → Step s (record s { phase = connecting; free = s.free - 1 })
          ⊎ ((s.active ≡ max_concurrent_connections)
              × Step s (record s { free = s.free + 1; active = s.active - 1 }))
    progress zero b e =
        let full : s.active ≡ max_concurrent_connections = ground (arith, phase_held p) in
        inr (full, handler_done (omega (arith, full)))
    progress (suc n) b e = inl (acquire p b.open_semaphore (omega arith))
