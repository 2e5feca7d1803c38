-- ===== src/Main/Announce.antt =====
-- What the running program puts on the network when it has a proxy.
use dlna_proxy.Common.{◌<◌, Bool, true, Option, some, List, inl, inr, ◌≡◌, refl}
use dlna_proxy.Text.{Bytes}
use dlna_proxy.Net.Addr.{SocketAddr}
use dlna_proxy.Config
use dlna_proxy.Config.{CommandLineConf, Outside, get_config, sockaddr_from_url}
use dlna_proxy.Proxy
use dlna_proxy.Ssdp.Utils.{World}
use dlna_proxy.Ssdp.Listener.{Request, Received}
use dlna_proxy.Ssdp.Listener.Replies.{sent_by}
use dlna_proxy.Ssdp.Broadcast.{Broadcaster, Round, Waited, shutdown_handler}
use dlna_proxy.Ssdp.Sockets.{Call, made, ssdp_sockets}
use dlna_proxy.Ssdp.Manager.{main_task}
use dlna_proxy.Ssdp.Manager.Notices.{
  AreNotices, AreAnswers, sent_in_all, listener-AreAnswers, broadcasting-AreNotices,
}
use dlna_proxy.Main.{Platform, Launched, running, main}
use dlna_proxy.Main.Launch.{main-proxied}

module _ {Url : Type 0} (p : Platform Url) (o : Outside Url) (args : CommandLineConf Url)
    (config : Config.Config Url) (log : List Call)
    (configured : get_config o args ≡ Config.success config) (logs : p.applies ≡ true)
    (built : p.builds (some config.connect_timeout) ≡ true)
    (bound : ssdp_sockets p.os p.works config.broadcast_iface ≡ made log)
    (parse : Bytes → Option Request) (w : World) (rounds : List Round) (received : List Received)
    (waited : Waited) (in_time : Bool) (later : World) where
  -- With a proxy whose listener can be bound, a positive period and a set-up that succeeds, the program runs, with
  -- the wait option or without, and also when the server cannot be reached; its proxy is set up for the address that
  -- the configured URL resolves to. Whatever the worlds of the greeting and of the rounds, the datagrams
  -- received, the parser and the signal at the end: the broadcast socket sends only farewells and announcements of
  -- the description at the URL with the proxy's address and port, the greeting and the last farewell included, and
  -- the other socket only answers with this URL.
  pub main-AreNotices :
      (from to : SocketAddr) (with_ip url : Url)
      → 0 < config.period
      → config.proxy ≡ some from
      → sockaddr_from_url p.ops config.description_url ≡ Config.success to
      → p.set_ip_host config.description_url from.ip ≡ some with_ip
      → p.set_port with_ip from.port ≡ some url
      → p.binds from ≡ true
      → (l : Launched) × (proxy : Proxy.Listening) × (b : Broadcaster) × (main p o args ≡ running l)
        × (l.tcp_proxy ≡ some proxy)
        × (proxy.listener ≡ from)
        × (proxy.origin ≡ to)
        × ((main_task parse l.ssdp l.wait_mode w rounds received).broadcasting ≡ some b)
        × AreNotices (p.as_str url) (
            sent_in_all b.sent
              (shutdown_handler waited in_time later l.ssdp.interactive_ssdp b.sent))
        × AreAnswers
            (p.as_str url)
            (sent_by (main_task parse l.ssdp l.wait_mode w rounds received).listener)
  main-AreNotices from to with_ip url pos q r s t binds =
      elim (main-proxied p o args config log configured logs built bound from to with_ip url q r s
        t) [
          | inl (not_binds, _) ↦ absurd (cc (binds, not_binds))
          | inr (_, runs) ↦
              let (b, broadcasts, own) = broadcasting-AreNotices parse _ _ w rounds received pos in
              (
                _,
                _,
                b,
                runs,
                refl,
                refl,
                refl,
                broadcasts,
                own waited in_time later,
                listener-AreAnswers parse _ _ w rounds received,
              )
        ]
