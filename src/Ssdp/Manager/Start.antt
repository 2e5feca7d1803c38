-- ===== src/Ssdp/Manager/Start.antt =====
-- What `main_task` puts on the broadcast socket, round by round.
use dlna_proxy.Common.{
  ◌<◌, Bool, true, false, Option, some, List, [], ◌∷◌, ◌++◌, append_assoc, append-nil, ◌⊎◌, inl,
  inr, ◌≡◌, refl, sym, ◌∙◌, arith, ◌==◌,
}
use dlna_proxy.Text.{Bytes}
use dlna_proxy.Text.Utf8.{as_bytes}
use dlna_proxy.Net.Addr.{SocketAddr}
use dlna_proxy.Ssdp.Packet.{alive, fmt}
use dlna_proxy.Ssdp.Utils.{
  World, EndpointInfo, Error, Result, success, failure, InteractiveSsdp, Sent, fetch_endpoint_info,
  send_alive,
}
use dlna_proxy.Ssdp.Utils.Outcome.{Delivers, unavailable, taken, refused, send_made-Delivers}
use dlna_proxy.Ssdp.Listener.{Request, Received}
use dlna_proxy.Ssdp.Broadcast.{
  Broadcaster, Round, do_ssdp_alive, ssdp_address, broadcast_task, broadcast_rounds,
}
use dlna_proxy.Ssdp.Broadcast.Schedule.{announced, broadcast_rounds-sent}
use dlna_proxy.Ssdp.Broadcast.Farewell.{IsFarewell, send_byebye-IsFarewell}
use dlna_proxy.Ssdp.Manager.{SsdpManager, initial_byebye, main_task}

module _ (self : InteractiveSsdp) where
  -- the announcement of a device, as a round's world dates it
  abbrev notice_of : World → EndpointInfo → Bytes
  notice_of w info = as_bytes (
      fmt w.now (
        alive self.remote_desc_url info.server info.unique_device_name info.device_type
          self.cache_max_age))

  -- What the rounds send: each one either finds no description, or is refused by the socket, or sends one
  -- announcement of the device that its own fetch describes.
  pub data Announces : List Round → Sent → Type 0 where
    over : Announces [] []
    undescribed :
        {rs : List Round} {sent : Sent} (r : Round) (e : Error)
        → fetch_endpoint_info r.world self ≡ failure e
        → Announces rs sent
        → Announces (r ∷ rs) sent
    not_taken :
        {rs : List Round} {sent : Sent} (r : Round) (info : EndpointInfo)
        → fetch_endpoint_info r.world self ≡ success info
        → r.world.udp_takes ssdp_address (notice_of r.world info) ≡ false
        → Announces rs sent
        → Announces (r ∷ rs) sent
    announces :
        {rs : List Round} {sent : Sent} (r : Round) (info : EndpointInfo)
        → fetch_endpoint_info r.world self ≡ success info
        → r.world.udp_takes ssdp_address (notice_of r.world info) ≡ true
        → Announces rs sent
        → Announces (r ∷ rs) ((ssdp_address, notice_of r.world info) ∷ sent)

  -- the announcements of later rounds
  record Later (rs : List Round) (sent sent' : Sent) : Type 0 where
    more : Sent
    made : Announces rs more
    grown : sent' ≡ sent ++ more

  round-Later :
      (r : Round) (rs : List Round) (sent : Sent) {f : Result EndpointInfo}
      {q : Result (Unit {0}) × Sent}
      → fetch_endpoint_info r.world self ≡ f
      → Delivers r.world
          (λ info.
            alive self.remote_desc_url info.server info.unique_device_name info.device_type
              self.cache_max_age)
          ssdp_address
          sent
          f
          q
      → ((sent' : Sent) → Later rs sent' (announced self rs sent'))
      → Later (r ∷ rs) sent (announced self rs q.1)
  round-Later r rs sent f (unavailable e) k =
      let h = k sent in record { more = h.more; made = undescribed r e f h.made; grown = h.grown }
  round-Later r rs sent f (refused info refuses) k =
      let h = k sent in
      record { more = h.more; made = not_taken r info f refuses h.made; grown = h.grown }
  round-Later r rs sent f (taken info takes) k =
      let one : SocketAddr × Bytes = (ssdp_address, notice_of r.world info) in
      let h = k (sent ++ one ∷ []) in
      record {
        more = one ∷ h.more;
        made = announces r info f takes h.made;
        grown = h.grown ∙ append_assoc sent (one ∷ []) h.more;
      }

  announced-Later : (rs : List Round) (sent : Sent) → Later rs sent (announced self rs sent)
  unfolding do_ssdp_alive send_alive
  announced-Later [] sent = record { more = []; made = over; grown = sym (append-nil sent) }
  announced-Later (r ∷ rs) sent =
      round-Later r rs sent refl
        (send_made-Delivers r.world (fetch_endpoint_info r.world self) _ ssdp_address sent)
        (announced-Later rs)

initial_byebye-IsFarewell :
    (wait_mode : Bool) (w : World) (self : InteractiveSsdp)
    → ((wait_mode ≡ true) × (initial_byebye wait_mode w self ≡ []))
      ⊎ ((wait_mode ≡ false) × IsFarewell w self [] (initial_byebye wait_mode w self))
unfolding initial_byebye
initial_byebye-IsFarewell true w self = inl (refl, refl)
initial_byebye-IsFarewell false w self = inr (refl, send_byebye-IsFarewell w self [])

-- With a positive period, whether the server is there or not: the broadcast socket carries a greeting, which is empty
-- in wait mode and else a farewell of the device that the description describes, or empty too if there is no
-- description or the socket refuses the datagram; and behind it, for each
-- round in its order, exactly one announcement of the device that the round's own fetch describes, with the
-- configured URL and lifetime, and none only where the fetch fails or the socket refuses the datagram. A round
-- that fails keeps no later one from being announced.
pub main_task-announced :
    (parse : Bytes → Option Request) (ssdp : SsdpManager) (wait_mode : Bool) (w : World)
    (rounds : List Round) (received : List Received)
    → 0 < ssdp.broadcast_period
    → (b : Broadcaster) × (greeting : Sent) × (later : Sent) × ((main_task parse ssdp wait_mode w
          rounds received).broadcasting
        ≡ some b)
      × (b.sent ≡ greeting ++ later)
      × Announces ssdp.interactive_ssdp rounds later
      × (((wait_mode ≡ true) × (greeting ≡ []))
          ⊎ ((wait_mode ≡ false) × IsFarewell w ssdp.interactive_ssdp [] greeting))
unfolding main_task broadcast_task
main_task-announced parse ssdp wait_mode w rounds received pos =
    let positive : (ssdp.broadcast_period == 0) ≡ false = ground arith in
    let self = ssdp.interactive_ssdp in
    let greeting = initial_byebye wait_mode w self in
    let start : Broadcaster = record { now = 0; deadline = 0; sent = greeting; began = [] } in
    let h = announced-Later self rounds greeting in
    (
      broadcast_rounds self ssdp.broadcast_period rounds start,
      greeting,
      h.more,
      rw positive,
      broadcast_rounds-sent self ssdp.broadcast_period rounds start ∙ h.grown,
      h.made,
      initial_byebye-IsFarewell wait_mode w self,
    )
