-- ===== src/Proxy/Relay.antt =====
-- tcp_proxy.rs, `handle_conn`: both directions of a connection.
use dlna_proxy.Common.{ℕ, List, [], ◌≡◌, ap, All}
use dlna_proxy.Text.{Bytes, Str}
use dlna_proxy.Net.{eof}
use dlna_proxy.Net.Laws.{conn, copy_all}
use dlna_proxy.Proxy.{handle_conn}
use dlna_proxy.Proxy.Response.Message.{Message, IsMessage, Tail, IsTail, stream, delivered_stream}
use dlna_proxy.Proxy.Response.Stream.{proxy_response_with_rewrite-stream}

-- On a connection whose client sends any bytes and closes, and whose origin sends well-formed responses and closes,
-- the origin gets exactly the client's bytes, and the client exactly what the specification says of the
-- responses.
pub handle_conn-stream :
    (origin proxy : Str) (request : Bytes) (ms : List Message) (t : Tail) (rs rs' : List ℕ)
    → All IsMessage ms
    → IsTail t
    → ((handle_conn origin proxy (conn request eof rs []) (conn (stream ms t) eof rs' [])).0.sent
        ≡ request)
      × ((handle_conn origin proxy (conn request eof rs []) (conn (stream ms t) eof rs' [])).1.sent
          ≡ delivered_stream origin proxy ms t)
unfolding handle_conn
handle_conn-stream origin proxy request ms t rs rs' hs ht = (
  ap (λ r. r.1.sent) (copy_all request rs []),
  ap (λ r. r.1.sent) (proxy_response_with_rewrite-stream origin proxy ms t rs' hs ht).1,
)
