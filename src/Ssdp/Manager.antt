-- ===== src/Ssdp/Manager.antt =====
-- ssdp/mod.rs: `SSDPManager` and `main_task`.
pub mod Lifetime
pub mod Start
pub mod Freshness
pub mod Notices
use dlna_proxy.Common.{ℕ, ◌*◌, ◌%◌, ◌^◌, Bool, true, false, Option, List, [], ltb, if◌then◌else◌}
use dlna_proxy.Text.{Bytes, Str}
use dlna_proxy.Ssdp.Broadcast.{Broadcaster, Round, ssdp_address, broadcast_task}
use dlna_proxy.Ssdp.Listener.{Request, Received, Listening, listen_task}
use dlna_proxy.Ssdp.Sockets.{Call, Os, Made, made, broke, crashed, ssdp_sockets}
use dlna_proxy.Ssdp.Utils.{World, InteractiveSsdp, Sent, send_byebye}

-- `match period { n if n < 20 => 20, n => n * 2 }`, in u64
unfoldable pub cache_max_age : ℕ → ℕ
cache_max_age n = if ltb n 20 then 20 else n * 2 % 2 ^ 64

-- `SSDPManager`: its sockets are known by the calls that made them
pub record SsdpManager : Type 0 where
  pub broadcast_period : ℕ
  pub sockets : List Call
  pub interactive_ssdp : InteractiveSsdp

pub data NewError : Type 0 where
  client_failed : NewError
  socket_failed : Call → NewError

pub data Created : Type 0 where
  created : SsdpManager → Created
  refused : NewError → Created
  new_panicked : Created

with_sockets : Str → ℕ → Made → Created
unfolding cache_max_age
with_sockets endpoint_desc_url broadcast_period (broke c log) = refused (socket_failed c)
with_sockets endpoint_desc_url broadcast_period (crashed log) = new_panicked
with_sockets endpoint_desc_url broadcast_period (made log) = created (record {
  broadcast_period = broadcast_period;
  sockets = log;
  interactive_ssdp = record {
    remote_desc_url = endpoint_desc_url;
    cache_max_age = cache_max_age broadcast_period;
  };
})

-- `SSDPManager::new`. `builds` is reqwest's answer to the timeout, `works` the system's to each call.
unfoldable pub new :
    Os → (Option ℕ → Bool) → (Call → Bool) → Str → ℕ → Option ℕ → Option Str → Created
unfolding with_sockets ssdp_sockets
new os builds works endpoint_desc_url broadcast_period connect_timeout broadcast_iface =
    if builds connect_timeout
    then with_sockets endpoint_desc_url broadcast_period (ssdp_sockets os works broadcast_iface)
    else refused client_failed

-- What the tasks do to the two sockets: the announcements, if the broadcast task did not panic, and how the
-- listen task stands.
pub record Running : Type 0 where
  pub broadcasting : Option Broadcaster
  pub listener : Listening

initial_byebye : Bool → World → InteractiveSsdp → Sent
initial_byebye true w helper = []
initial_byebye false w helper = (send_byebye w helper ssdp_address []).1

-- `main_task`, over the rounds of the broadcast task and what the listen task receives
unfoldable pub main_task :
    (Bytes → Option Request) → SsdpManager → Bool → World → List Round → List Received → Running
unfolding initial_byebye
main_task parse ssdp wait_mode w rounds received =
    let greeted = initial_byebye wait_mode w ssdp.interactive_ssdp in
    record {
      broadcasting = broadcast_task ssdp.interactive_ssdp ssdp.broadcast_period rounds greeted;
      listener = listen_task parse ssdp.interactive_ssdp [] received;
    }
