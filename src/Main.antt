-- ===== src/Main.antt =====
-- src/main.rs: how the parts are put together.
pub mod Launch
pub mod Announce
pub mod Forward
use dlna_proxy.Common.{ℕ, Bool, true, false, Option, none, some, if◌then◌else◌}
use dlna_proxy.Text.{Str}
use dlna_proxy.Net.Addr.{Ip, SocketAddr}
use dlna_proxy.Proxy
use dlna_proxy.Config
use dlna_proxy.Config.{CommandLineConf, Outside, UrlOps, try_from, sockaddr_from_url}
use dlna_proxy.Logging.{Dispatch, init_logging}
use dlna_proxy.Ssdp.Manager
use dlna_proxy.Ssdp.Manager.{Created, created, SsdpManager}
use dlna_proxy.Ssdp.Sockets.{Call, Os}

-- The other operations on `reqwest::Url` (`none` where the code unwraps an error), whether a TCP listener can be
-- bound, the operating system, whether fern can set the logger, and the answers that `SSDPManager::new` meets.
pub record Platform (Url : Type 0) : Type 0 where
  pub ops : UrlOps Url
  pub set_ip_host : Url → Ip → Option Url
  pub set_port : Url → ℕ → Option Url
  pub as_str : Url → Str
  pub binds : SocketAddr → Bool
  pub os : Os
  pub applies : Bool
  pub builds : Option ℕ → Bool
  pub works : Call → Bool

-- the proxy's task if there is one, what `main` hands to `main_task`, and the logger
pub record Launched : Type 0 where
  pub logging : Dispatch
  pub tcp_proxy : Option Proxy.Listening
  pub ssdp : SsdpManager
  pub wait_mode : Bool

-- `main` runs on, returns an error, or panics.
pub data Ended (A : Type 0) : Type 0 where
  running : A → Ended A
  bad_config : Config.Error → Ended A
  bind_failed : SocketAddr → Ended A
  ssdp_failed : Manager.NewError → Ended A
  panicked : Ended A

infixl 5 ◌>>=◌
abbrev pub ◌>>=◌ : {A B : Type 0} → Ended A → (A → Ended B) → Ended B
running a >>= f = f a
bad_config e >>= f = bad_config e
bind_failed a >>= f = bind_failed a
ssdp_failed e >>= f = ssdp_failed e
panicked >>= f = panicked

abbrev pub from_config : {A : Type 0} → Config.Result A → Ended A
from_config (Config.success a) = running a
from_config (Config.failure e) = bad_config e

abbrev pub unwrap : {A : Type 0} → Option A → Ended A
unwrap none = panicked
unwrap (some a) = running a

abbrev pub or_bind_failed : {A : Type 0} → SocketAddr → Option A → Ended A
or_bind_failed addr none = bind_failed addr
or_bind_failed addr (some a) = running a

abbrev pub from_created : Created → Ended SsdpManager
from_created (created m) = running m
from_created (Manager.refused e) = ssdp_failed e
from_created Manager.new_panicked = panicked

abbrev pub is_some : Option ℕ → Bool
is_some none = false
is_some (some _) = true

module _ {Url : Type 0} (p : Platform Url) where
  -- `if let Some(proxy_addr) = config.proxy { … }`: the URL to announce, and the proxy
  unfoldable pub start_proxy :
      Config.Config Url → Option SocketAddr → Ended (Url × Option Proxy.Listening)
  start_proxy config none = running (config.description_url, none)
  start_proxy config (some proxy_addr) = do
    server_addr ← from_config (sockaddr_from_url p.ops config.description_url)
    with_ip ← unwrap (p.set_ip_host config.description_url proxy_addr.ip)
    url ← unwrap (p.set_port with_ip proxy_addr.port)
    let proxy = Proxy.new config.proxy_timeout config.stream_timeout server_addr proxy_addr
    started ← or_bind_failed proxy_addr (Proxy.start p.binds proxy server_addr proxy_addr)
    running (url, some started)

  unfoldable pub main : Outside Url → CommandLineConf Url → Ended Launched
  unfolding start_proxy
  main o args = do
    config ← from_config (try_from o args)
    logging ← unwrap (init_logging p.applies config.verbose)
    proxied ← start_proxy config config.proxy
    ssdp ← from_created (
        Manager.new p.os p.builds p.works (p.as_str proxied.0) config.period
          (some config.connect_timeout) config.broadcast_iface)
    running (record {
      logging = logging;
      tcp_proxy = proxied.1;
      ssdp = ssdp;
      wait_mode = is_some config.wait;
    })
