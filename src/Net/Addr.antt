-- ===== src/Net/Addr.antt =====
-- Socket addresses (`std::net`) and their `Display`.
use dlna_proxy.Common.{ℕ, ◌++◌}
use dlna_proxy.Text.{Str, codes}
use dlna_proxy.Text.Number.{to_decimal}

-- The text of an IPv6 address, which `Display` compresses, stands for the address.
pub data Ip : Type 0 where
  v4 : (a b c d : ℕ) → Ip
  v6 : Str → Ip

pub record SocketAddr : Type 0 where
  pub ip : Ip
  pub port : ℕ

-- `Display` of an `IpAddr`: no brackets round an IPv6 address
unfoldable pub show_ip : Ip → Str
unfolding to_decimal
show_ip (v4 a b c d) =
    to_decimal a
    ++ (codes "." ++ (to_decimal b ++ (codes "." ++ (to_decimal c ++ (codes "." ++ to_decimal d)))))
show_ip (v6 text) = text
