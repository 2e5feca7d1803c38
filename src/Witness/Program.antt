-- ===== src/Witness/Program.antt =====
-- config.rs and main.rs at concrete settings. A URL is a host, a port and a path.
mod Announce
mod Forward
use dlna_proxy.Common.{ℕ, true, Option, none, some, [], ◌∷◌, inr, ◌≡◌, refl}
use dlna_proxy.Text.{Str, codes}
use dlna_proxy.Net.Addr.{SocketAddr, v4, show_ip}
use dlna_proxy.Config
use dlna_proxy.Config.{CommandLineConf, RawConfig, Outside, get_config, sockaddr_from_url, success}
use dlna_proxy.Config.Choice.{Matches, get_config-same}
use dlna_proxy.Ssdp.Sockets.{ssdp_sockets, made, linux}
use dlna_proxy.Ssdp.Sockets.Order.{expected_calls}
use dlna_proxy.Main.{Platform}

record Url : Type 0 where
  host : Str
  port : ℕ
  path : Str

abbrev server : SocketAddr
server = record { ip = v4 10 0 0 9; port = 8200 }

abbrev front : SocketAddr
front = record { ip = v4 10 0 0 1; port = 8080 }

abbrev server_url : Url
server_url = record { host = codes "10.0.0.9"; port = 8200; path = codes "/rootDesc.xml" }

abbrev with_host : Url
with_host = record { host = codes "10.0.0.1"; port = 8200; path = codes "/rootDesc.xml" }

abbrev front_url : Url
front_url = record { host = codes "10.0.0.1"; port = 8080; path = codes "/rootDesc.xml" }

-- no file can be read, and nothing is parsed
abbrev outside : Outside Url
outside = record {
  read_to_string = λ p. none;
  from_toml = λ s. none;
  parse_url = λ s. none;
  parse_addr = λ s. none;
}

abbrev args : Option Str → Option Url → Option SocketAddr → CommandLineConf Url
args file u proxy = record {
  config = file;
  description_url = u;
  interval = none;
  proxy = proxy;
  iface = none;
  wait = some 30;
  connect_timeout = some 5;
  proxy_timeout = none;
  stream_timeout = none;
  verbose = 1;
}

abbrev raw : RawConfig
raw = record {
  description_url = some (codes "url");
  period = none;
  proxy = some (codes "front");
  verbose = some 1;
  iface = none;
  wait = some 30;
  connect_timeout = some 5;
  proxy_timeout = none;
  stream_timeout = none;
}

-- one file, one URL and one address
abbrev one_file : Outside Url
one_file = record {
  read_to_string = λ p. some (codes "text");
  from_toml = λ s. some raw;
  parse_url = λ s. some server_url;
  parse_addr = λ s. some front;
}

raw-Matches : Matches one_file raw (args none (some server_url) (some front))
raw-Matches = record {
  url_text = codes "url";
  url = server_url;
  url_given = refl;
  url_parsed = refl;
  same_url = refl;
  same_proxy = inr (codes "front", front, refl, refl, refl);
  same_period = refl;
  same_iface = refl;
  same_verbose = refl;
  same_wait = refl;
  same_connect_timeout = refl;
  same_proxy_timeout = refl;
  same_stream_timeout = refl;
}

get_config-same_example :
    get_config one_file (args (some (codes "a.toml")) none none)
    ≡ get_config one_file (args none (some server_url) (some front))
get_config-same_example =
    get_config-same one_file (args (some (codes "a.toml")) none none)
      (args none (some server_url) (some front)) (codes "a.toml") (codes "text") raw refl refl refl
      refl raw-Matches

abbrev set_port : Url → ℕ → Url
set_port u p = record u { port = p }

abbrev platform : Platform Url
platform = record {
  ops = record {
    host = λ u. some u.host;
    port_or_known_default = λ u. some u.port;
    to_socket_addrs = λ s. some (server ∷ []);
  };
  set_ip_host = λ u a. some (record u { host = show_ip a });
  set_port = λ u p. some (set_port u p);
  as_str = λ u. u.host;
  os = linux;
  binds = λ a. true;
  applies = true;
  builds = λ t. true;
  works = λ c. true;
}

abbrev config : Option SocketAddr → Config.Config Url
config proxy = record {
  description_url = server_url;
  period = 895;
  proxy = proxy;
  broadcast_iface = none;
  verbose = Config.info;
  wait = some 30;
  connect_timeout = 5;
  proxy_timeout = 10;
  stream_timeout = 300;
}

configured :
    (proxy : Option SocketAddr)
    → get_config outside (args none (some server_url) proxy) ≡ success (config proxy)
unfolding get_config
configured proxy = refl

bound : ssdp_sockets platform.os platform.works none ≡ made (expected_calls linux none)
unfolding ssdp_sockets
bound = refl

resolved : sockaddr_from_url platform.ops server_url ≡ success server
unfolding sockaddr_from_url
resolved = refl
