-- ===== src/Ssdp/Sockets.antt =====
-- ssdp/mod.rs, `ssdp_sockets`: the calls on the two sockets, in order, on each operating system.
pub mod Order
use dlna_proxy.Common.{Bool, Option, none, some, List, [], ◌∷◌, ◌++◌, if◌then◌else◌}
use dlna_proxy.Text.{Str}
use dlna_proxy.Net.Addr.{Ip, SocketAddr, v4}

abbrev pub listen_address : SocketAddr
listen_address = record { ip = v4 0 0 0 0; port = 1900 }

abbrev pub broadcast_address : SocketAddr
broadcast_address = record { ip = v4 0 0 0 0; port = 0 }

pub data Role : Type 0 where
  listen broadcast : Role

-- the calls of socket2, nix and tokio
pub data Call : Type 0 where
  create : Role → Call
  set_reuse_address : Role → Call
  set_reuse_port : Role → Call
  bind : Role → SocketAddr → Call
  set_nonblocking : Role → Call
  from_std : Role → Call
  bind_to_device : Role → Str → Call
  join_multicast : Role → Ip → Call

-- `target_os`, as far as the code asks for it
pub data Os : Type 0 where
  linux android macos other_os : Os

-- `Ok`, the call that failed, or a panic; with the calls that were made before
pub data Made : Type 0 where
  made : List Call → Made
  broke : Call → List Call → Made
  crashed : List Call → Made

-- the blocks of the function, one behind the other
abbrev pub after : Made → (List Call → Made) → Made
after (made log) next = next log
after (broke c log) next = broke c log
after (crashed log) next = crashed log

-- what a block of the code does: its calls in order, and stop at the first that fails
unfoldable pub perform : (Call → Bool) → List Call → List Call → Made
perform works [] log = made log
perform works (c ∷ cs) log = if works c then perform works cs (log ++ c ∷ []) else broke c log

-- `#[cfg(target_os = "linux")]`
unfoldable pub reuse_port : Os → Role → List Call
reuse_port linux role = set_reuse_port role ∷ []
reuse_port _ role = []

-- the blocks that make a socket
unfoldable pub open_socket : Os → Role → SocketAddr → List Call
unfolding reuse_port
open_socket os role addr =
    create role
    ∷ set_reuse_address role
    ∷ (reuse_port os role ++ (bind role addr ∷ set_nonblocking role ∷ from_std role ∷ []))

-- `setsockopt` on both sockets
abbrev pub both_devices : Str → List Call
both_devices iface = bind_to_device listen iface ∷ bind_to_device broadcast iface ∷ []

-- `if let Some(_iface) = broadcast_iface`
unfoldable pub bind_devices : Os → (Call → Bool) → Option Str → List Call → Made
unfolding perform
bind_devices os works none log = made log
bind_devices linux works (some iface) log = perform works (both_devices iface) log
bind_devices android works (some iface) log = perform works (both_devices iface) log
bind_devices macos works (some iface) log = crashed log
bind_devices other_os works (some iface) log = made log

unfoldable pub join_groups : List Call
join_groups =
    join_multicast listen (v4 239 255 255 250) ∷ join_multicast broadcast (v4 239 255 255 250) ∷ []

unfoldable pub ssdp_sockets : Os → (Call → Bool) → Option Str → Made
unfolding open_socket bind_devices join_groups perform
ssdp_sockets os works broadcast_iface =
    after
      (after
        (perform works
          (open_socket os listen listen_address ++ open_socket os broadcast broadcast_address) [])
        (bind_devices os works broadcast_iface))
      (perform works join_groups)
