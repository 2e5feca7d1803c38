-- ===== src/Main/Forward.antt =====
-- What the running program's proxy does for its clients.
use dlna_proxy.Common.{true, some, List, ◌∷◌, ◌++◌, inl, inr, ◌≡◌, refl, ℕ, [], All}
use dlna_proxy.Text.{Bytes}
use dlna_proxy.Net.{eof}
use dlna_proxy.Net.Laws.{conn}
use dlna_proxy.Net.Addr.{SocketAddr}
use dlna_proxy.Config
use dlna_proxy.Config.{CommandLineConf, Outside, get_config, sockaddr_from_url}
use dlna_proxy.Proxy
use dlna_proxy.Proxy.{url_base}
use dlna_proxy.Proxy.Response.Message.{Message, IsMessage, Tail, IsTail, stream, delivered_stream}
use dlna_proxy.Proxy.Listen.Clients.{Closed, Server, Serving}
use dlna_proxy.Proxy.Listen.Accounts.{Serving-served}
use dlna_proxy.Ssdp.Sockets.{Call, made, ssdp_sockets}
use dlna_proxy.Main.{Platform, Launched, running, main}
use dlna_proxy.Main.Launch.{main-proxied}

module _ {Url : Type 0} (p : Platform Url) (o : Outside Url) (args : CommandLineConf Url)
    (config : Config.Config Url) (log : List Call)
    (configured : get_config o args ≡ Config.success config) (logs : p.applies ≡ true)
    (built : p.builds (some config.connect_timeout) ≡ true)
    (bound : ssdp_sockets p.os p.works config.broadcast_iface ≡ made log) where
  -- With a proxy whose listener can be bound and a set-up that succeeds, the program runs with an accept loop on the
  -- proxy's address. In every run of this loop, when a handler has ended for a client that sent a request and
  -- closed, on a connection to an origin that sent well-formed responses and closed, then the origin got exactly
  -- the client's bytes, and the client what the specification says of the responses, for the base of the address
  -- that the configured URL resolves to and the base of the proxy's own address.
  pub main-served :
      (from to : SocketAddr) (with_ip url : Url) (s : Server) (newer older : List Closed)
      (d : Closed) (request : Bytes) (ms : List Message) (t : Tail) (rs rs' : List ℕ)
      → config.proxy ≡ some from
      → sockaddr_from_url p.ops config.description_url ≡ Config.success to
      → p.set_ip_host config.description_url from.ip ≡ some with_ip
      → p.set_port with_ip from.port ≡ some url
      → p.binds from ≡ true
      → Serving (url_base to) (url_base from) s
      → s.served ≡ newer ++ d ∷ older
      → d.handler.client.proxied_stream ≡ conn request eof rs []
      → d.handler.to_stream ≡ conn (stream ms t) eof rs' []
      → All IsMessage ms
      → IsTail t
      → (l : Launched) × (proxy : Proxy.Listening) × (main p o args ≡ running l)
        × (l.tcp_proxy ≡ some proxy)
        × (proxy.listener ≡ from)
        × (proxy.origin ≡ to)
        × Serving proxy.origin_url_base proxy.proxy_url_base s
        × (d.after.0.sent ≡ request)
        × (d.after.1.sent ≡ delivered_stream proxy.origin_url_base proxy.proxy_url_base ms t)
  main-served from to with_ip url s newer older d request ms t rs rs' q r u v binds run e up down hs
        ht =
      elim (main-proxied p o args config log configured logs built bound from to with_ip url q r u
        v) [
          | inl (not_binds, _) ↦ absurd (cc (binds, not_binds))
          | inr (_, runs) ↦
              let (got, gets) =
                Serving-served (url_base to) (url_base from) newer older d request ms t rs rs' run e
                  up down hs ht in
              (_, _, runs, refl, refl, refl, run, got, gets)
        ]
