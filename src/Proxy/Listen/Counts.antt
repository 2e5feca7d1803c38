-- ===== src/Proxy/Listen/Counts.antt =====
-- The accept loop with its clients, seen without them, is the loop that only counts its handlers.
use dlna_proxy.Common.{
  ℕ, suc, ◌+◌, ◌-◌, Bool, List, ◌∷◌, ◌++◌, ◌≡◌, sym, ◌∙◌, ap, arith, length, length-append,
}
use dlna_proxy.Text.{Str}
use dlna_proxy.Proxy.Listen
use dlna_proxy.Proxy.Listen.{Phase, Listener, Step, Reach}
use dlna_proxy.Proxy.Listen.Clients.{
  Handler, Stage, accepting, stopped, acquiring, connecting, Server, Serve, accept_client,
  accept_error, acquire, semaphore_closed, connect_origin, connect_error, connect_timeout,
  handler_done, Serving, start, next,
}

abbrev pub phase_of : Stage → Phase
phase_of accepting = Listen.accepting
phase_of stopped = Listen.stopped
phase_of (acquiring c) = Listen.acquiring
phase_of (connecting c) = Listen.connecting

-- the state without the clients
abbrev pub counted : Server → Listener
counted s = record {
  phase = phase_of s.stage;
  free = s.free;
  closed = s.closed;
  active = length s.handlers;
}

module _ (origin proxy : Str) where
  fewer :
      (s : Server) (before : List Handler) (h : Handler) (later : List Handler)
      → s.handlers ≡ before ++ h ∷ later
      → length s.handlers ≡ suc (length (before ++ later))
  fewer s before h later p =
      ap length p ∙ omega (arith, length-append before (h ∷ later), length-append before later)

  -- a step to a state that differs in the number of handlers as it is written
  with_count :
      {l : Listener} (phase : Phase) (free m n : ℕ) (closed : Bool)
      → m ≡ n
      → Step l (record { phase = phase; free = free; closed = closed; active = m })
      → Step l (record { phase = phase; free = free; closed = closed; active = n })
  with_count phase free m n closed e st = rw (sym e) st

  Serve-Step : {s t : Server} → Serve origin proxy s t → Step (counted s) (counted t)
  Serve-Step (accept_client c p) = Listen.accept_client (ap phase_of p)
  Serve-Step (accept_error p) = Listen.accept_error (ap phase_of p)
  Serve-Step (acquire c p o f) = Listen.acquire (ap phase_of p) o f
  Serve-Step (semaphore_closed c p o) = Listen.semaphore_closed (ap phase_of p) o
  Serve-Step {s} (connect_origin c d p) =
      with_count Listen.accepting s.free (length s.handlers + 1) (suc (length s.handlers)) s.closed
        (omega arith) (Listen.connect_origin (ap phase_of p))
  Serve-Step (connect_error c p) = Listen.connect_error (ap phase_of p)
  Serve-Step (connect_timeout c p) = Listen.connect_timeout (ap phase_of p)
  Serve-Step {s} (handler_done before h later p) =
      let one_fewer = fewer s before h later p in
      with_count (phase_of s.stage) (s.free + 1) (length s.handlers - 1) (length (before ++ later))
        s.closed (omega (arith, one_fewer)) (Listen.handler_done (omega (arith, one_fewer)))

  pub Serving-Reach : {s : Server} → Serving origin proxy s → Reach (counted s)
  Serving-Reach start = Listen.start
  Serving-Reach (next r st) = Listen.next (Serving-Reach r) (Serve-Step st)
