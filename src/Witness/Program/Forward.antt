-- ===== src/Witness/Program/Forward.antt =====
-- A client of the running program's proxy, at concrete settings.
use dlna_proxy.Common.{none, some, [], ◌∷◌, ◌≡◌, refl, arith}
use dlna_proxy.Text.{codes}
use dlna_proxy.Text.Number.{to_decimal}
use dlna_proxy.Net.{Conn, eof}
use dlna_proxy.Net.Laws.{conn}
use dlna_proxy.Net.Addr.{show_ip}
use dlna_proxy.Proxy
use dlna_proxy.Proxy.{url_base}
use dlna_proxy.Proxy.Response.Message.{closed, stream, delivered_stream}
use dlna_proxy.Proxy.Listen.Clients.{
  Client, Handler, Server, idle, close, Serving, start, next, accept_client, acquire,
  connect_origin, handler_done,
}
use dlna_proxy.Ssdp.Sockets.{linux}
use dlna_proxy.Ssdp.Sockets.Order.{expected_calls}
use dlna_proxy.Main.{Launched, running, main}
use dlna_proxy.Main.Forward.{main-served}
use dlna_proxy.Witness.Proxy.{description, description-IsMessage}
use dlna_proxy.Witness.Program.{
  platform, outside, args, server_url, front, server, with_host, front_url, config, configured,
  bound, resolved,
}

abbrev asking : Client
asking = record {
  peer_addr = server;
  proxied_stream = conn (codes "GET / HTTP/1.1\r\n\r\n") eof [] [];
}

abbrev answering : Conn
answering = conn (stream (description ∷ []) closed) eof (5 ∷ []) []

abbrev handler : Handler
handler = record { client = asking; to_stream = answering }

abbrev after : Server
after = record idle {
  accepted = asking ∷ [];
  served = close (url_base server) (url_base front) handler ∷ [];
}

one_client : Serving (url_base server) (url_base front) after
one_client =
    next
      (next (next (next start (accept_client asking refl)) (acquire asking refl refl (omega arith)))
        (connect_origin asking answering refl))
      (handler_done [] handler [] refl)

main-served_example :
    (l : Launched) × (proxy : Proxy.Listening) × (main platform outside
        (args none (some server_url) (some front))
      ≡ running l)
    × (l.tcp_proxy ≡ some proxy)
    × (proxy.listener ≡ front)
    × (proxy.origin ≡ server)
    × Serving proxy.origin_url_base proxy.proxy_url_base after
    × ((close (url_base server) (url_base front) handler).after.0.sent
        ≡ codes "GET / HTTP/1.1\r\n\r\n")
    × ((close (url_base server) (url_base front) handler).after.1.sent
        ≡ delivered_stream proxy.origin_url_base proxy.proxy_url_base (description ∷ []) closed)
unfolding show_ip to_decimal
main-served_example =
    main-served platform outside (args none (some server_url) (some front)) (config (some front))
      (expected_calls linux none) (configured (some front)) refl refl bound front server with_host
      front_url after [] [] (close (url_base server) (url_base front) handler)
      (codes "GET / HTTP/1.1\r\n\r\n") (description ∷ []) closed [] (5 ∷ []) refl resolved refl refl
      refl one_client refl refl refl (description-IsMessage, tt) tt
