-- ===== src/Config/Choice.antt =====
-- Where each setting comes from, and its default.
use dlna_proxy.Common.{none, some, ◌≡◌}
use dlna_proxy.Text.{Str}
use dlna_proxy.Common.{inl, inr, ◌⊎◌}
use dlna_proxy.Net.Addr.{SocketAddr}
use dlna_proxy.Config.{RawConfig, optional_addr}
use dlna_proxy.Config.{CommandLineConf, success, Outside, get_config}

-- With a configuration file the command line has no part in the result: any two that name the same file
-- give the same configuration, or the same error.
get_config-file :
    {Url : Type 0} (o : Outside Url) (a b : CommandLineConf Url) (path : Str)
    → a.config ≡ some path
    → b.config ≡ some path
    → get_config o a ≡ get_config o b
unfolding get_config
get_config-file o a b path p q = rw (p, q)

-- The settings of a file, as the command line would give them.
pub record Matches {Url : Type 0} (o : Outside Url) (raw : RawConfig) (a : CommandLineConf Url)
    : Type 0 where
  pub url_text : Str
  pub url : Url
  pub url_given : raw.description_url ≡ some url_text
  pub url_parsed : o.parse_url url_text ≡ some url
  pub same_url : a.description_url ≡ some url
  pub same_proxy :
      ((raw.proxy ≡ none) × (a.proxy ≡ none))
      ⊎ ((t : Str) × (addr : SocketAddr) × (raw.proxy ≡ some t)
          × (o.parse_addr t ≡ some addr)
          × (a.proxy ≡ some addr))
  pub same_period : a.interval ≡ raw.period
  pub same_iface : a.iface ≡ raw.iface
  pub same_verbose : raw.verbose ≡ some a.verbose
  pub same_wait : a.wait ≡ raw.wait
  pub same_connect_timeout : a.connect_timeout ≡ raw.connect_timeout
  pub same_proxy_timeout : a.proxy_timeout ≡ raw.proxy_timeout
  pub same_stream_timeout : a.stream_timeout ≡ raw.stream_timeout

optional_addr_same :
    {Url : Type 0} (o : Outside Url) (raw : RawConfig) (a : CommandLineConf Url)
    → Matches o raw a
    → optional_addr o.parse_addr raw.proxy ≡ success a.proxy
unfolding optional_addr
optional_addr_same o raw a m = elim m.same_proxy [
  | inl absent ↦ rw (absent.0, absent.1)
  | inr given ↦ rw (given.2, given.3, given.4)
]

-- A configuration file and a command line without one that give the same settings give the same configuration.
pub get_config-same :
    {Url : Type 0} (o : Outside Url) (a b : CommandLineConf Url) (path text : Str) (raw : RawConfig)
    → a.config ≡ some path
    → o.read_to_string path ≡ some text
    → o.from_toml text ≡ some raw
    → b.config ≡ none
    → Matches o raw b
    → get_config o a ≡ get_config o b
unfolding get_config
get_config-same o a b path text raw p read toml q m = rw (
  p,
  read,
  toml,
  q,
  m.url_given,
  m.url_parsed,
  m.same_url,
  optional_addr_same o raw b m,
  m.same_period,
  m.same_iface,
  m.same_verbose,
  m.same_wait,
  m.same_connect_timeout,
  m.same_proxy_timeout,
  m.same_stream_timeout,
)
