-- ===== src/Proxy.antt =====
-- src/tcp_proxy.rs: the HTTP-aware TCP proxy. A connection's two tasks, and the bases of the URLs.
pub mod Chunk
pub mod Header
pub mod Response
pub mod Listen
pub mod Relay
pub mod Base
use dlna_proxy.Common.{ℕ, Bool, Option, none, some, if◌then◌else◌, ◌++◌}
use dlna_proxy.Text.{Str, codes}
use dlna_proxy.Text.Number.{to_decimal}
use dlna_proxy.Net.{Conn, copy}
use dlna_proxy.Net.Addr.{SocketAddr, show_ip}
use Response.{proxy_response_with_rewrite}

-- `TCPProxy`; durations are in seconds
pub record TcpProxy : Type 0 where
  pub connect_timeout : ℕ
  pub stream_timeout : ℕ
  pub origin_url_base : Str
  pub proxy_url_base : Str

-- `format!("http://{}:{}", addr.ip(), addr.port())`
unfoldable pub url_base : SocketAddr → Str
unfolding to_decimal show_ip
url_base addr = codes "http://" ++ (show_ip addr.ip ++ (codes ":" ++ to_decimal addr.port))

-- `TCPProxy::new`
unfoldable pub new : ℕ → ℕ → SocketAddr → SocketAddr → TcpProxy
unfolding url_base
new connect_timeout stream_timeout origin_addr proxy_addr = record {
  connect_timeout = connect_timeout;
  stream_timeout = stream_timeout;
  origin_url_base = url_base origin_addr;
  proxy_url_base = url_base proxy_addr;
}

-- what the task that `start` spawns hands to `listen_loop`
pub record Listening : Type 0 where
  pub listener : SocketAddr
  pub origin : SocketAddr
  pub connect_timeout : ℕ
  pub stream_timeout : ℕ
  pub origin_url_base : Str
  pub proxy_url_base : Str

-- `TCPProxy::start`; `none` for an address that cannot be bound
unfoldable pub start : (SocketAddr → Bool) → TcpProxy → SocketAddr → SocketAddr → Option Listening
start binds self to from =
    if binds from
    then some (record {
      listener = from;
      origin = to;
      connect_timeout = self.connect_timeout;
      stream_timeout = self.stream_timeout;
      origin_url_base = self.origin_url_base;
      proxy_url_base = self.proxy_url_base;
    })
    else none

-- The two tasks of `handle_conn`: `upstream` carries the client's bytes to the origin, `downstream` the
-- origin's to the client. Both are awaited; what they return, or that they panic, is only logged.
unfoldable pub handle_conn : Str → Str → Conn → Conn → Conn × Conn
unfolding copy proxy_response_with_rewrite
handle_conn origin_url_base proxy_url_base upstream downstream =
    ((copy upstream).1, (proxy_response_with_rewrite origin_url_base proxy_url_base downstream).1)
