-- ===== src/Main/Launch.antt =====
-- What the program announces and where it forwards to, with a proxy.
use dlna_proxy.Common.{true, false, some, List, ◌⊎◌, inl, inr, ◌≡◌, Bool-cases}
use dlna_proxy.Net.Addr.{SocketAddr}
use dlna_proxy.Proxy
use dlna_proxy.Proxy.{url_base, start}
use dlna_proxy.Logging.{Dispatch, log_line, init_logging}
use dlna_proxy.Text.{codes}
use dlna_proxy.Config
use dlna_proxy.Config.{CommandLineConf, Outside, get_config, sockaddr_from_url}
use dlna_proxy.Ssdp.Manager.{cache_max_age, new}
use dlna_proxy.Ssdp.Sockets.{Call, made, ssdp_sockets}
use dlna_proxy.Main.{Platform, running, bind_failed, is_some, start_proxy, main}

-- the program's own records at the configured level, all others from warnings on
abbrev pub log_settings : {Url : Type 0} → Config.Config Url → Dispatch
log_settings config = record {
  level = Config.warn;
  level_for = (codes "dlnaproxy", config.verbose);
  format = log_line;
}

module _ {Url : Type 0} (p : Platform Url) (o : Outside Url) (args : CommandLineConf Url)
    (config : Config.Config Url) (log : List Call)
    (configured : get_config o args ≡ Config.success config) (logs : p.applies ≡ true)
    (built : p.builds (some config.connect_timeout) ≡ true)
    (bound : ssdp_sockets p.os p.works config.broadcast_iface ≡ made log) where
  -- With a proxy the program announces the configured URL with the proxy's address and port put in, and the
  -- proxy listens there, forwards to the address that the unchanged URL resolves to, and replaces the base of the
  -- one by the base of the other; if the proxy's listener
  -- cannot be bound, the program ends and announces nothing.
  pub main-proxied :
      (from to : SocketAddr) (with_ip url : Url)
      → config.proxy ≡ some from
      → sockaddr_from_url p.ops config.description_url ≡ Config.success to
      → p.set_ip_host config.description_url from.ip ≡ some with_ip
      → p.set_port with_ip from.port ≡ some url
      → ((p.binds from ≡ false) × (main p o args ≡ bind_failed from))
        ⊎ ((p.binds from ≡ true)
            × (main p o args
                ≡ running (record {
                  logging = log_settings config;
                  tcp_proxy = some (record {
                    listener = from;
                    origin = to;
                    connect_timeout = config.proxy_timeout;
                    stream_timeout = config.stream_timeout;
                    origin_url_base = url_base to;
                    proxy_url_base = url_base from;
                  });
                  ssdp = record {
                    broadcast_period = config.period;
                    sockets = log;
                    interactive_ssdp = record {
                      remote_desc_url = p.as_str url;
                      cache_max_age = cache_max_age config.period;
                    };
                  };
                  wait_mode = is_some config.wait;
                })))
  unfolding main start_proxy new Proxy.new start init_logging
  main-proxied from to with_ip url q r s t = elim (Bool-cases (p.binds from)) [
    | inl binds ↦ inr (binds, rw (configured, logs, q, r, s, t, binds, built, bound))
    | inr not_binds ↦ inl (not_binds, rw (configured, logs, q, r, s, t, not_binds))
  ]
