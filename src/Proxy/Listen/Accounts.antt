-- ===== src/Proxy/Listen/Accounts.antt =====
-- The accept loop with its clients: where each of them is, and what those got that were served.
use mathlib.Core.List.Perm
use mathlib.Core.List.{Perm, perm_middle}
use dlna_proxy.Common.{ℕ, ◌+◌, List, [], ◌∷◌, ◌++◌, map, ◌≡◌, ◌≢◌, refl, ap, length, All}
use dlna_proxy.Text.{Bytes, Str}
use dlna_proxy.Net.{eof}
use dlna_proxy.Net.Laws.{conn}
use dlna_proxy.Proxy.{handle_conn}
use dlna_proxy.Proxy.Relay.{handle_conn-stream}
use dlna_proxy.Proxy.Response.Message.{Message, IsMessage, Tail, IsTail, stream, delivered_stream}
use dlna_proxy.Proxy.Listen
use dlna_proxy.Proxy.Listen.{max_concurrent_connections}
use dlna_proxy.Proxy.Listen.Permits.{held, Reach-permits}
use dlna_proxy.Proxy.Listen.Counts.{phase_of, Serving-Reach}
use dlna_proxy.Proxy.Listen.Clients.{
  Client, Handler, Closed, Stage, accepting, stopped, acquiring, connecting, Server, Serve,
  accept_client, accept_error, acquire, semaphore_closed, connect_origin, connect_error,
  connect_timeout, handler_done, Serving, start, next,
}

-- the client that the loop itself holds
abbrev pub waiting : Stage → List Client
waiting accepting = []
waiting stopped = []
waiting (acquiring c) = c ∷ []
waiting (connecting c) = c ∷ []

abbrev pub clients_of : List Handler → List Client
clients_of = map (λ h. h.client)

-- where the clients are
abbrev pub placed : Server → List Client
placed s =
    waiting s.stage
    ++ (clients_of s.handlers ++ (s.turned_away ++ map (λ d. d.handler.client) s.served))

clients_of-append :
    (before later : List Handler)
    → clients_of (before ++ later) ≡ clients_of before ++ clients_of later
clients_of-append [] later = refl
clients_of-append (h ∷ before) later = ap (◌∷◌ h.client) (clients_of-append before later)

-- a client that is turned away goes behind the handlers
turned :
    (c : Client) (hs turned_away served : List Client)
    → Perm (c ∷ (hs ++ (turned_away ++ served))) (hs ++ ((c ∷ turned_away) ++ served))
turned c hs turned_away served = Perm.symm (perm_middle hs (turned_away ++ served))

-- a client whose handler is done goes behind those that were turned away
done_with :
    (c : Client) (before later turned_away served : List Client)
    → Perm
        ((before ++ c ∷ later) ++ (turned_away ++ served))
        ((before ++ later) ++ (turned_away ++ c ∷ served))
done_with c before later turned_away served =
    Perm.trans (Perm.append_right (turned_away ++ served) (perm_middle before later)) (
      Perm.symm (
        Perm.trans (Perm.append_left (before ++ later) (perm_middle turned_away served))
          (perm_middle (before ++ later) (turned_away ++ served))))

-- each accepted client stands in exactly one place
abbrev IsAccounted : Server → Type 0
IsAccounted s = Perm s.accepted (placed s)

placed_elsewhere : Server → List Client
placed_elsewhere s =
    clients_of s.handlers ++ (s.turned_away ++ map (λ d. d.handler.client) s.served)

at_stage :
    (s : Server) (st : Stage)
    → s.stage ≡ st
    → IsAccounted s
    → Perm s.accepted (waiting st ++ placed_elsewhere s)
unfolding placed_elsewhere
at_stage s st e a = rw e at a

turned_away-IsAccounted :
    (s : Server) (c : Client)
    → Perm s.accepted (c ∷ placed_elsewhere s)
    → Perm s.accepted
        (clients_of s.handlers ++ ((c ∷ s.turned_away) ++ map (λ d. d.handler.client) s.served))
unfolding placed_elsewhere
turned_away-IsAccounted s c a = Perm.trans a (turned c (clients_of s.handlers) s.turned_away _)

done-IsAccounted :
    (s : Server) (before : List Handler) (h : Handler) (later : List Handler)
    → s.handlers ≡ before ++ h ∷ later
    → IsAccounted s
    → Perm s.accepted (
        waiting s.stage
        ++ (clients_of (before ++ later)
            ++ (s.turned_away ++ h.client ∷ map (λ d. d.handler.client) s.served)))
done-IsAccounted s before h later p a =
    let served = map (λ d. d.handler.client) s.served in
    let moved : Perm (clients_of s.handlers ++ (s.turned_away ++ served))
        (clients_of (before ++ later) ++ (s.turned_away ++ h.client ∷ served)) =
      rw (p, clients_of-append before (h ∷ later), clients_of-append before later)
        (done_with h.client (clients_of before) (clients_of later) s.turned_away served) in
    Perm.trans a (Perm.append_left (waiting s.stage) moved)

module _ (origin proxy : Str) where
  Serve-IsAccounted : {s t : Server} → Serve origin proxy s t → IsAccounted s → IsAccounted t
  unfolding placed_elsewhere
  Serve-IsAccounted {s} (accept_client c p) a = Perm.cons c (at_stage s accepting p a)
  Serve-IsAccounted (accept_error p) a = a
  Serve-IsAccounted {s} (acquire c p o f) a = at_stage s (acquiring c) p a
  Serve-IsAccounted {s} (semaphore_closed c p o) a =
      turned_away-IsAccounted s c (at_stage s (acquiring c) p a)
  Serve-IsAccounted {s} (connect_origin c d p) a = at_stage s (connecting c) p a
  Serve-IsAccounted {s} (connect_error c p) a =
      turned_away-IsAccounted s c (at_stage s (connecting c) p a)
  Serve-IsAccounted {s} (connect_timeout c p) a =
      turned_away-IsAccounted s c (at_stage s (connecting c) p a)
  Serve-IsAccounted {s} (handler_done before h later p) a = done-IsAccounted s before h later p a

  Serving-IsAccounted : {s : Server} → Serving origin proxy s → IsAccounted s
  Serving-IsAccounted start = Perm.nil
  Serving-IsAccounted (next r st) = Serve-IsAccounted st (Serving-IsAccounted r)

  -- what `handle_conn` made of the handler's own two connections
  abbrev IsOwn : Closed → Type 0
  IsOwn d = d.after ≡ handle_conn origin proxy d.handler.client.proxied_stream d.handler.to_stream

  Serving-IsOwn : {s : Server} → Serving origin proxy s → All IsOwn s.served
  Serving-IsOwn start = tt
  Serving-IsOwn (next r (accept_client c p)) = Serving-IsOwn r
  Serving-IsOwn (next r (accept_error p)) = Serving-IsOwn r
  Serving-IsOwn (next r (acquire c p o f)) = Serving-IsOwn r
  Serving-IsOwn (next r (semaphore_closed c p o)) = Serving-IsOwn r
  Serving-IsOwn (next r (connect_origin c d p)) = Serving-IsOwn r
  Serving-IsOwn (next r (connect_error c p)) = Serving-IsOwn r
  Serving-IsOwn (next r (connect_timeout c p)) = Serving-IsOwn r
  Serving-IsOwn (next r (handler_done before h later p)) = (refl, Serving-IsOwn r)

  nth_served :
      (ds : List Closed) (newer : List Closed) (d : Closed) (older : List Closed)
      → All IsOwn ds
      → ds ≡ newer ++ d ∷ older
      → IsOwn d
  nth_served ds newer d older h e = last_part newer (rw e at h)
    where
      last_part : (newer : List Closed) → All IsOwn (newer ++ d ∷ older) → IsOwn d
      last_part [] k = k.0
      last_part (x ∷ newer) k = last_part newer k.1

  -- However clients arrive, connections to the origin succeed, fail or time out, and handlers end: the loop never
  -- stops, and its free permits, its handlers and the one permit that it may hold add up to 100. Each client that
  -- it accepted stands in exactly one place: it waits in the loop, has a handler, was turned away, or was served;
  -- none is lost and none is served twice.
  pub Serving-accounted :
      {s : Server}
      → Serving origin proxy s
      → (s.free + length s.handlers + held (phase_of s.stage) ≡ max_concurrent_connections)
        × (phase_of s.stage ≢ Listen.stopped)
        × Perm s.accepted (placed s)
  Serving-accounted r =
      let (permits, _, runs) = Reach-permits (Serving-Reach origin proxy r) in
      (permits, runs, Serving-IsAccounted r)

  -- In every run of the accept loop, whatever happens to the other clients: when a handler has ended for a client
  -- that sent a request and closed, on a connection to an origin that sent well-formed responses and closed, then
  -- the origin got exactly that client's bytes, and that client what the specification says of these responses.
  pub Serving-served :
      {s : Server} (newer older : List Closed) (d : Closed) (request : Bytes) (ms : List Message)
      (t : Tail) (rs rs' : List ℕ)
      → Serving origin proxy s
      → s.served ≡ newer ++ d ∷ older
      → d.handler.client.proxied_stream ≡ conn request eof rs []
      → d.handler.to_stream ≡ conn (stream ms t) eof rs' []
      → All IsMessage ms
      → IsTail t
      → (d.after.0.sent ≡ request) × (d.after.1.sent ≡ delivered_stream origin proxy ms t)
  Serving-served {s} newer older d request ms t rs rs' r e from to hs ht =
      rw (nth_served s.served newer d older (Serving-IsOwn r) e, from, to)
        (handle_conn-stream origin proxy request ms t rs rs' hs ht)
