-- ===== src/Ssdp/Utils/Outcome.antt =====
-- What the three sending operations of `InteractiveSSDP` do to the socket.
use dlna_proxy.Common.{true, false, [], ◌∷◌, ◌++◌, inl, inr, ◌≡◌, Bool-cases}
use dlna_proxy.Text.Utf8.{as_bytes}
use dlna_proxy.Net.Addr.{SocketAddr}
use dlna_proxy.Ssdp.Packet.{SsdpPacket, fmt}
use dlna_proxy.Ssdp.Utils.{
  EndpointInfo, World, Error, send_failed, Result, success, failure, Sent, InteractiveSsdp,
  fetch_endpoint_info, send_to, send_made, send_alive, send_ok, send_byebye,
}

-- Every run of an operation: the description cannot be fetched, or the socket takes the datagram made of it, or the
-- socket refuses it.
pub data Delivers (w : World) (make : EndpointInfo → SsdpPacket) (dest : SocketAddr) (sent : Sent)
    : Result EndpointInfo → Result (Unit {0}) × Sent → Type 0 where
  unavailable : (e : Error) → Delivers w make dest sent (failure e) (failure e, sent)
  taken :
      (info : EndpointInfo)
      → w.udp_takes dest (as_bytes (fmt w.now (make info))) ≡ true
      → Delivers w make dest sent
          (success info)
          (success tt, sent ++ (dest, as_bytes (fmt w.now (make info))) ∷ [])
  refused :
      (info : EndpointInfo)
      → w.udp_takes dest (as_bytes (fmt w.now (make info))) ≡ false
      → Delivers w make dest sent (success info) (failure send_failed, sent)

pub send_made-Delivers :
    (w : World) (r : Result EndpointInfo) (make : EndpointInfo → SsdpPacket) (dest : SocketAddr)
    (sent : Sent)
    → Delivers w make dest sent r (send_made w r make dest sent)
unfolding send_made send_to
send_made-Delivers w (failure e) make dest sent = unavailable e
send_made-Delivers w (success info) make dest sent =
    elim (Bool-cases (w.udp_takes dest (as_bytes (fmt w.now (make info))))) [
      | inl takes ↦ rw takes (taken info takes)
      | inr refuses ↦ rw refuses (refused info refuses)
    ]

-- When the fetch fails, each operation returns its error and sends nothing.
send_undescribed :
    (w : World) (self : InteractiveSsdp) (dest : SocketAddr) (sent : Sent) (e : Error)
    → fetch_endpoint_info w self ≡ failure e
    → (send_alive w self dest sent ≡ (failure e, sent))
      × (send_ok w self dest sent ≡ (failure e, sent))
      × (send_byebye w self dest sent ≡ (failure e, sent))
unfolding send_alive send_ok send_byebye
send_undescribed w self dest sent e h = (rw h, rw h, rw h)
