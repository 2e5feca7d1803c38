-- ===== src/Ssdp/Broadcast.antt =====
-- ssdp/broadcast.rs: the periodic announcement, and the farewell at shutdown.
pub mod Schedule
pub mod Farewell
pub mod Pace
use dlna_proxy.Common.{
  ℕ, ◌+◌, Bool, true, false, Option, none, some, List, [], ◌∷◌, ◌++◌, ltb, ◌==◌, if◌then◌else◌,
}
use dlna_proxy.Text.{Str, codes}
use dlna_proxy.Net.Addr.{SocketAddr, v4}
use dlna_proxy.Ssdp.Utils.{World, InteractiveSsdp, Result, Sent, send_alive, send_byebye}

-- `SSDP_ADDRESS` of ssdp/mod.rs
abbrev pub ssdp_address : SocketAddr
ssdp_address = record { ip = v4 239 255 255 250; port = 1900 }

-- `SSDPBroadcast::do_ssdp_alive`, on the datagrams of its socket
unfoldable pub do_ssdp_alive : World → InteractiveSsdp → Sent → Result (Unit {0}) × Sent
do_ssdp_alive w ssdp_helper = send_alive w ssdp_helper ssdp_address

-- A round of the broadcast loop meets a world, and takes some time, in seconds.
pub record Round : Type 0 where
  pub world : World
  pub lasts : ℕ

-- The task: the time, the deadline of the next tick, the datagrams, and when each round began.
pub record Broadcaster : Type 0 where
  pub now : ℕ
  pub deadline : ℕ
  pub sent : Sent
  pub began : List ℕ

-- `interval.tick()`: wait for the deadline, if it is not past; the next one is a period later
abbrev pub tick : ℕ → Broadcaster → Broadcaster
tick period b = record b {
  now = if ltb b.now b.deadline then b.deadline else b.now;
  deadline = b.deadline + period;
}

-- one round: announce, whether that succeeds or not, and wait for the tick
unfoldable pub broadcast_round : InteractiveSsdp → ℕ → Round → Broadcaster → Broadcaster
unfolding do_ssdp_alive
broadcast_round helper period r b = tick period (record b {
  sent = (do_ssdp_alive r.world helper b.sent).1;
  now = b.now + r.lasts;
  began = b.began ++ b.now ∷ [];
})

unfoldable pub broadcast_rounds : InteractiveSsdp → ℕ → List Round → Broadcaster → Broadcaster
broadcast_rounds helper period [] b = b
broadcast_rounds helper period (r ∷ rs) b =
    broadcast_rounds helper period rs (broadcast_round helper period r b)

-- `broadcast_task`, started at time 0, over the rounds that it makes; the first tick is due at once.
-- `none`: `time::interval` panics at a period of zero.
unfoldable pub broadcast_task : InteractiveSsdp → ℕ → List Round → Sent → Option Broadcaster
unfolding broadcast_rounds
broadcast_task helper period rounds sent =
    if period == 0
    then none
    else some (
        broadcast_rounds helper period rounds
          (record { now = 0; deadline = 0; sent = sent; began = [] }))

-- What ends the wait on a Unix system: Ctrl+C, with whether the wait for it worked, or SIGTERM.
pub data Woken : Type 0 where
  interrupted : (works : Bool) → Woken
  terminated : Woken

-- What `wait_for_shutdown_signal` meets: on a Unix system, whether the handler of SIGTERM can be installed, and what
-- wakes it then; on another system, whether the wait for Ctrl+C works.
pub data Waited : Type 0 where
  on_unix : (installs : Bool) → Woken → Waited
  elsewhere : (works : Bool) → Waited

-- the signal's name, or an error
unfoldable pub wait_for_shutdown_signal : Waited → Option Str
wait_for_shutdown_signal (on_unix false woken) = none
wait_for_shutdown_signal (on_unix true (interrupted false)) = none
wait_for_shutdown_signal (on_unix true (interrupted true)) = some (codes "SIGINT")
wait_for_shutdown_signal (on_unix true terminated) = some (codes "SIGTERM")
wait_for_shutdown_signal (elsewhere false) = none
wait_for_shutdown_signal (elsewhere true) = some (codes "Ctrl+C")

-- The shutdown handler ends the process with a status, or waits forever.
pub data Shutdown : Type 0 where
  exits : ℕ → Sent → Shutdown
  waits_forever : Shutdown

-- `time::timeout(2 s, send_byebye)`: a future that is not ready in time is dropped
unfoldable pub farewell : Bool → World → InteractiveSsdp → Sent → Sent
farewell false w helper sent = sent
farewell true w helper sent = (send_byebye w helper ssdp_address sent).1

-- the match on the result of the wait
unfoldable pub on_signal : Option Str → Bool → World → InteractiveSsdp → Sent → Shutdown
unfolding farewell
on_signal none in_time w helper sent = waits_forever
on_signal (some name) in_time w helper sent = exits 0 (farewell in_time w helper sent)

-- `shutdown_handler`; the flag is whether the farewell was ready within two seconds
unfoldable pub shutdown_handler : Waited → Bool → World → InteractiveSsdp → Sent → Shutdown
unfolding wait_for_shutdown_signal on_signal
shutdown_handler waited = on_signal (wait_for_shutdown_signal waited)
