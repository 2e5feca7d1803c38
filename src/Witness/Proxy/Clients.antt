-- ===== src/Witness/Proxy/Clients.antt =====
-- The accept loop with two clients: one is turned away, the other served.
use mathlib.Core.List.{Perm}
use dlna_proxy.Common.{◌+◌, [], ◌∷◌, ◌≡◌, ◌≢◌, refl, arith, length}
use dlna_proxy.Text.{codes}
use dlna_proxy.Net.{Conn, eof}
use dlna_proxy.Net.Laws.{conn}
use dlna_proxy.Net.Addr.{v4}
use dlna_proxy.Proxy.Response.Message.{closed, stream}
use dlna_proxy.Proxy.Listen
use dlna_proxy.Proxy.Listen.{max_concurrent_connections}
use dlna_proxy.Proxy.Listen.Permits.{held}
use dlna_proxy.Proxy.Listen.Counts.{phase_of}
use dlna_proxy.Proxy.Listen.Clients
use dlna_proxy.Proxy.Listen.Clients.{
  Client, Handler, Server, idle, close, Serving, start, next, accept_client, acquire,
  connect_origin, connect_timeout, handler_done,
}
use dlna_proxy.Proxy.Listen.Accounts.{placed, Serving-accounted}
use dlna_proxy.Witness.Proxy.{origin, proxy, description}

abbrev late : Client
late = record {
  peer_addr = record { ip = v4 10 0 0 7; port = 50000 };
  proxied_stream = conn [] eof [] [];
}

abbrev asking : Client
asking = record {
  peer_addr = record { ip = v4 10 0 0 8; port = 50001 };
  proxied_stream = conn (codes "GET / HTTP/1.1\r\n\r\n") eof [] [];
}

abbrev answering : Conn
answering = conn (stream (description ∷ []) closed) eof (5 ∷ []) []

abbrev handler : Handler
handler = record { client = asking; to_stream = answering }

-- the state in the end; one more client waits for a permit
abbrev after : Server
after = record idle {
  stage = Clients.acquiring late;
  accepted = late ∷ asking ∷ late ∷ [];
  turned_away = late ∷ [];
  served = close origin proxy handler ∷ [];
}

two_clients : Serving origin proxy after
two_clients =
    let turned_away =
      next (next (next start (accept_client late refl)) (acquire late refl refl (omega arith)))
        (connect_timeout late refl) in
    let connected =
      next
        (next (next turned_away (accept_client asking refl))
          (acquire asking refl refl (omega arith)))
        (connect_origin asking answering refl) in
    next (next connected (handler_done [] handler [] refl)) (accept_client late refl)

Serving-accounted_example :
    (after.free + length after.handlers + held (phase_of after.stage) ≡ max_concurrent_connections)
    × (phase_of after.stage ≢ Listen.stopped)
    × Perm after.accepted (placed after)
Serving-accounted_example = Serving-accounted origin proxy two_clients
