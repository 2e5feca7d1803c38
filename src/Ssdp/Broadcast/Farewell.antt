-- ===== src/Ssdp/Broadcast/Farewell.antt =====
-- The farewell.
use dlna_proxy.Common.{Bool, true, false, [], ◌∷◌, ◌++◌, ◌⊎◌, inl, inr, ◌≡◌, refl}
use dlna_proxy.Text.{Bytes}
use dlna_proxy.Text.Utf8.{as_bytes}
use dlna_proxy.Ssdp.Packet.{bye_bye, fmt}
use dlna_proxy.Ssdp.Utils.{
  World, EndpointInfo, Error, Result, success, failure, InteractiveSsdp, Sent, fetch_endpoint_info,
  send_byebye,
}
use dlna_proxy.Ssdp.Utils.Outcome.{Delivers, unavailable, taken, refused, send_made-Delivers}
use dlna_proxy.Ssdp.Broadcast.{
  Waited, on_unix, elsewhere, interrupted, terminated, wait_for_shutdown_signal, exits,
  waits_forever, ssdp_address, farewell, on_signal, shutdown_handler,
}

abbrev farewell_of : World → EndpointInfo → Bytes
farewell_of w info = as_bytes (fmt w.now (bye_bye info.unique_device_name info.device_type))

-- One farewell was sent, of the device that the fetched description describes; and nothing only if there is no
-- description, or the socket refuses the datagram.
pub data IsFarewell (w : World) (helper : InteractiveSsdp) (sent : Sent) : Sent → Type 0 where
  no_description :
      (e : Error) → fetch_endpoint_info w helper ≡ failure e → IsFarewell w helper sent sent
  not_taken :
      (info : EndpointInfo)
      → fetch_endpoint_info w helper ≡ success info
      → w.udp_takes ssdp_address (farewell_of w info) ≡ false
      → IsFarewell w helper sent sent
  says_goodbye :
      (info : EndpointInfo)
      → fetch_endpoint_info w helper ≡ success info
      → w.udp_takes ssdp_address (farewell_of w info) ≡ true
      → IsFarewell w helper sent (sent ++ (ssdp_address, farewell_of w info) ∷ [])

-- a signal to end the program arrives, and its handler works
abbrev pub Catches : Waited → Type 0
Catches (on_unix installs (interrupted works)) = (installs ≡ true) × (works ≡ true)
Catches (on_unix installs terminated) = installs ≡ true
Catches (elsewhere works) = works ≡ true

delivered-IsFarewell :
    (w : World) (helper : InteractiveSsdp) (sent : Sent) {r : Result EndpointInfo}
    {q : Result (Unit {0}) × Sent}
    → fetch_endpoint_info w helper ≡ r
    → Delivers w (λ info. bye_bye info.unique_device_name info.device_type) ssdp_address sent r q
    → IsFarewell w helper sent q.1
delivered-IsFarewell w helper sent f (unavailable e) = no_description e f
delivered-IsFarewell w helper sent f (taken info takes) = says_goodbye info f takes
delivered-IsFarewell w helper sent f (refused info refuses) = not_taken info f refuses

pub send_byebye-IsFarewell :
    (w : World) (helper : InteractiveSsdp) (sent : Sent)
    → IsFarewell w helper sent (send_byebye w helper ssdp_address sent).1
unfolding send_byebye
send_byebye-IsFarewell w helper sent =
    delivered-IsFarewell w helper sent refl
      (send_made-Delivers w (fetch_endpoint_info w helper) _ ssdp_address sent)

module _ (w : World) (helper : InteractiveSsdp) (sent : Sent) where
  -- the farewell, if it is done in the time it has
  abbrev pub SaysGoodbye : Bool → Sent → Type 0
  SaysGoodbye true sent' = IsFarewell w helper sent sent'
  SaysGoodbye false sent' = sent' ≡ sent

  farewell-SaysGoodbye : (in_time : Bool) → SaysGoodbye in_time (farewell in_time w helper sent)
  unfolding farewell
  farewell-SaysGoodbye true = send_byebye-IsFarewell w helper sent
  farewell-SaysGoodbye false = refl

  -- On every system, and whatever the world is like at that time: when a signal to end is caught, the process ends
  -- with status 0. If there is time, one farewell was sent, of the device that the fetched description describes,
  -- and none only if the fetch fails or the socket refuses the datagram; if there is not, nothing was sent. When no
  -- signal can be caught, the handler waits forever.
  pub shutdown_handler_exits :
      (waited : Waited) (in_time : Bool)
      → (Catches waited
          × (sent' : Sent) × (shutdown_handler waited in_time w helper sent ≡ exits 0 sent')
          × SaysGoodbye in_time sent')
        ⊎ ((¬ Catches waited) × (shutdown_handler waited in_time w helper sent ≡ waits_forever))
  unfolding shutdown_handler wait_for_shutdown_signal on_signal
  shutdown_handler_exits (on_unix false (interrupted works)) in_time = inr (λ c. cc (c.0), refl)
  shutdown_handler_exits (on_unix false terminated) in_time = inr (λ c. cc c, refl)
  shutdown_handler_exits (on_unix true (interrupted false)) in_time = inr (λ c. cc (c.1), refl)
  shutdown_handler_exits (on_unix true (interrupted true)) in_time =
      inl ((refl, refl), _, refl, farewell-SaysGoodbye in_time)
  shutdown_handler_exits (on_unix true terminated) in_time =
      inl (refl, _, refl, farewell-SaysGoodbye in_time)
  shutdown_handler_exits (elsewhere false) in_time = inr (λ c. cc c, refl)
  shutdown_handler_exits (elsewhere true) in_time =
      inl (refl, _, refl, farewell-SaysGoodbye in_time)
