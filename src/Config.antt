-- ===== src/Config.antt =====
-- src/config.rs: the configuration, from the command line or a TOML file.
pub mod Choice
use dlna_proxy.Common.{ℕ, zero, suc, Option, none, some, List, [], ◌∷◌, ◌++◌}
use dlna_proxy.Text.{Str, codes}
use dlna_proxy.Text.Number.{to_decimal}
use dlna_proxy.Net.Addr.{SocketAddr}

-- `CommandLineConf` of main.rs; clap and the crates that parse a URL give its values
pub record CommandLineConf (Url : Type 0) : Type 0 where
  pub config : Option Str
  pub description_url : Option Url
  pub interval : Option ℕ
  pub proxy : Option SocketAddr
  pub iface : Option Str
  pub wait : Option ℕ
  pub connect_timeout : Option ℕ
  pub proxy_timeout : Option ℕ
  pub stream_timeout : Option ℕ
  pub verbose : ℕ

pub record RawConfig : Type 0 where
  pub description_url : Option Str
  pub period : Option ℕ
  pub proxy : Option Str
  pub verbose : Option ℕ
  pub iface : Option Str
  pub wait : Option ℕ
  pub connect_timeout : Option ℕ
  pub proxy_timeout : Option ℕ
  pub stream_timeout : Option ℕ

-- `log::LevelFilter`
pub data LevelFilter : Type 0 where
  warn info debug trace : LevelFilter

-- durations are in seconds
pub record Config (Url : Type 0) : Type 0 where
  pub description_url : Url
  pub period : ℕ
  pub proxy : Option SocketAddr
  pub broadcast_iface : Option Str
  pub verbose : LevelFilter
  pub wait : Option ℕ
  pub connect_timeout : ℕ
  pub proxy_timeout : ℕ
  pub stream_timeout : ℕ

-- the contexts that the code gives to its errors
pub data Error : Type 0 where
  cannot_read_file bad_toml missing_url bad_url bad_proxy : Error
  no_host no_port unresolved no_address : Error

pub data Result (A : Type 0) : Type 0 where
  success : A → Result A
  failure : Error → Result A

infixl 5 ◌>>=◌
abbrev pub ◌>>=◌ : {A B : Type 0} → Result A → (A → Result B) → Result B
success a >>= f = f a
failure e >>= f = failure e

abbrev pub or_else : {A : Type 0} → Option A → Error → Result A
or_else none e = failure e
or_else (some a) e = success a

-- The file system, the `toml` and `url` crates, and the parser of socket addresses.
pub record Outside (Url : Type 0) : Type 0 where
  pub read_to_string : Str → Option Str
  pub from_toml : Str → Option RawConfig
  pub parse_url : Str → Option Url
  pub parse_addr : Str → Option SocketAddr

-- the tuple that both branches of `get_config` build
pub record Choices (Url : Type 0) : Type 0 where
  pub description_url : Url
  pub period : Option ℕ
  pub proxy : Option SocketAddr
  pub broadcast_iface : Option Str
  pub verbose : Option ℕ
  pub wait : Option ℕ
  pub connect_timeout : Option ℕ
  pub proxy_timeout : Option ℕ
  pub stream_timeout : Option ℕ

unfoldable pub level : Option ℕ → LevelFilter
level none = warn
level (some zero) = warn
level (some (suc zero)) = info
level (some (suc (suc zero))) = debug
level (some (suc (suc (suc _)))) = trace

abbrev pub get_or : Option ℕ → ℕ → ℕ
get_or none d = d
get_or (some n) d = n

-- `proxy.as_deref().map(str::parse).transpose()`
optional_addr : (Str → Option SocketAddr) → Option Str → Result (Option SocketAddr)
optional_addr parse none = success none
optional_addr parse (some s) = do addr ← or_else (parse s) bad_proxy; success (some addr)

module _ {Url : Type 0} where
  -- the branch of `get_config` with a configuration file
  unfoldable pub from_file : Outside Url → Str → Result (Choices Url)
  unfolding optional_addr
  from_file o config_file = do
    raw ← or_else (o.from_toml config_file) bad_toml
    url ← or_else raw.description_url missing_url
    desc_url ← or_else (o.parse_url url) bad_url
    proxy ← optional_addr o.parse_addr raw.proxy
    success (record {
      description_url = desc_url;
      period = raw.period;
      proxy = proxy;
      broadcast_iface = raw.iface;
      verbose = raw.verbose;
      wait = raw.wait;
      connect_timeout = raw.connect_timeout;
      proxy_timeout = raw.proxy_timeout;
      stream_timeout = raw.stream_timeout;
    })

  -- the branch without one
  unfoldable pub from_args : CommandLineConf Url → Result (Choices Url)
  from_args args = do
    desc_url ← or_else args.description_url missing_url
    success (record {
      description_url = desc_url;
      period = args.interval;
      proxy = args.proxy;
      broadcast_iface = args.iface;
      verbose = some args.verbose;
      wait = args.wait;
      connect_timeout = args.connect_timeout;
      proxy_timeout = args.proxy_timeout;
      stream_timeout = args.stream_timeout;
    })

  -- the defaults
  unfoldable pub with_defaults : Choices Url → Config Url
  unfolding level
  with_defaults c = record {
    description_url = c.description_url;
    period = get_or c.period 895;
    proxy = c.proxy;
    broadcast_iface = c.broadcast_iface;
    verbose = level c.verbose;
    wait = c.wait;
    connect_timeout = get_or c.connect_timeout 2;
    proxy_timeout = get_or c.proxy_timeout 10;
    stream_timeout = get_or c.stream_timeout 300;
  }

  choices : Outside Url → CommandLineConf Url → Option Str → Result (Choices Url)
  unfolding from_file from_args
  choices o args none = from_args args
  choices o args (some path) = do
    config_file ← or_else (o.read_to_string path) cannot_read_file
    from_file o config_file

  unfoldable pub get_config : Outside Url → CommandLineConf Url → Result (Config Url)
  unfolding choices with_defaults
  get_config o args = do c ← choices o args args.config; success (with_defaults c)

-- `Config::try_from`
abbrev pub try_from : {Url : Type 0} → Outside Url → CommandLineConf Url → Result (Config Url)
try_from = get_config

-- the operations on `reqwest::Url` that the program calls, and name resolution
pub record UrlOps (Url : Type 0) : Type 0 where
  pub host : Url → Option Str
  pub port_or_known_default : Url → Option ℕ
  pub to_socket_addrs : Str → Option (List SocketAddr)

first : List SocketAddr → Result SocketAddr
first [] = failure no_address
first (a ∷ _) = success a

unfoldable pub sockaddr_from_url : {Url : Type 0} → UrlOps Url → Url → Result SocketAddr
unfolding first to_decimal
sockaddr_from_url ops url = do
  host ← or_else (ops.host url) no_host
  port ← or_else (ops.port_or_known_default url) no_port
  let address = host ++ (codes ":" ++ to_decimal port)
  addresses ← or_else (ops.to_socket_addrs address) unresolved
  first addresses
