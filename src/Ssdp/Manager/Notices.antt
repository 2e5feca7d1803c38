-- ===== src/Ssdp/Manager/Notices.antt =====
-- ssdp/: whose description the datagrams of the program advertise.
use dlna_proxy.Common.{
  none, ℕ, ◌<◌, Bool, true, false, Option, some, List, [], ◌∷◌, inl, inr, ◌≡◌, arith, All,
  All-append, ◌==◌, sym, subst,
}
use dlna_proxy.Text.{Bytes, Str}
use dlna_proxy.Text.Utf8.{as_bytes}
use dlna_proxy.Net.Addr.{SocketAddr}
use dlna_proxy.Ssdp.Packet.{SsdpPacket, alive, ok, bye_bye, fmt}
use dlna_proxy.Ssdp.Utils.{
  World, InteractiveSsdp, Sent, EndpointInfo, fetch_endpoint_info, send_alive, send_byebye,
}
use dlna_proxy.Ssdp.Listener.{Request, Received}
use dlna_proxy.Ssdp.Listener.Replies.{
  OneAtMost, send_made-OneAtMost, sent_by, Replies, no_more, passed_over, replied,
  listen_task-Replies,
}
use dlna_proxy.Ssdp.Broadcast.{
  Broadcaster, Round, do_ssdp_alive, broadcast_task, broadcast_rounds, ssdp_address, Waited,
  wait_for_shutdown_signal, on_signal, Shutdown, exits, waits_forever, farewell, shutdown_handler,
}
use dlna_proxy.Ssdp.Broadcast.Schedule.{announced, broadcast_rounds-sent}
use dlna_proxy.Ssdp.Manager.{SsdpManager, initial_byebye, main_task}

-- An announcement of the description at `url`, or a farewell, which names no description.
pub data IsNoticeOf (url : Str) : Bytes → Type 0 where
  is_alive :
      (now server udn device_type : Str) (age : ℕ)
      → IsNoticeOf url (as_bytes (fmt now (alive url server udn device_type age)))
  is_farewell :
      (now udn device_type : Str) → IsNoticeOf url (as_bytes (fmt now (bye_bye udn device_type)))

-- an answer to a search, with the description at `url`
pub data IsAnswerOf (url : Str) : Bytes → Type 0 where
  is_ok :
      (now server udn device_type : Str) (age : ℕ)
      → IsAnswerOf url (as_bytes (fmt now (ok url server udn device_type age)))

abbrev pub AreNotices : Str → Sent → Type 0
AreNotices url sent = All (λ d. IsNoticeOf url d.1) sent

abbrev pub AreAnswers : Str → Sent → Type 0
AreAnswers url sent = All (λ d. IsAnswerOf url d.1) sent

module _ (w : World) (self : InteractiveSsdp) where
  one-AreNotices :
      (make : EndpointInfo → SsdpPacket) (dest : SocketAddr) (sent sent' : Sent)
      → ((info : EndpointInfo) → IsNoticeOf self.remote_desc_url (as_bytes (fmt w.now (make info))))
      → AreNotices self.remote_desc_url sent
      → OneAtMost w make dest sent sent'
      → AreNotices self.remote_desc_url sent'
  one-AreNotices make dest sent sent' own h (inl same) =
      subst (AreNotices self.remote_desc_url) (sym same) h
  one-AreNotices make dest sent sent' own h (inr (info, one)) =
      subst (AreNotices self.remote_desc_url) (sym one) (All-append _ sent _ h (own info, tt))

  send_alive-AreNotices :
      (dest : SocketAddr) (sent : Sent)
      → AreNotices self.remote_desc_url sent
      → AreNotices self.remote_desc_url (send_alive w self dest sent).1
  unfolding send_alive
  send_alive-AreNotices dest sent h =
      one-AreNotices _ dest sent _ (λ info. is_alive _ _ _ _ _) h
        (send_made-OneAtMost w (fetch_endpoint_info w self) _ dest sent)

  send_byebye-AreNotices :
      (dest : SocketAddr) (sent : Sent)
      → AreNotices self.remote_desc_url sent
      → AreNotices self.remote_desc_url (send_byebye w self dest sent).1
  unfolding send_byebye
  send_byebye-AreNotices dest sent h =
      one-AreNotices _ dest sent _ (λ info. is_farewell _ _ _) h
        (send_made-OneAtMost w (fetch_endpoint_info w self) _ dest sent)

announced-AreNotices :
    (self : InteractiveSsdp) (rounds : List Round) (sent : Sent)
    → AreNotices self.remote_desc_url sent
    → AreNotices self.remote_desc_url (announced self rounds sent)
unfolding do_ssdp_alive
announced-AreNotices self [] sent h = h
announced-AreNotices self (r ∷ rounds) sent h =
    announced-AreNotices self rounds _ (send_alive-AreNotices r.world self ssdp_address sent h)

Replies-AreAnswers :
    (parse : Bytes → Option Request) (self : InteractiveSsdp) (rs : List Received) (sent : Sent)
    → Replies parse self rs sent
    → AreAnswers self.remote_desc_url sent
Replies-AreAnswers parse self _ _ no_more = tt
Replies-AreAnswers parse self (_ ∷ rs) sent (passed_over r h) =
    Replies-AreAnswers parse self rs sent h
Replies-AreAnswers parse self (_ ∷ rs) (_ ∷ sent) (replied src reply h) = (
  subst (IsAnswerOf self.remote_desc_url) (sym reply.is_ok) (is_ok _ _ _ _ _),
  Replies-AreAnswers parse self rs sent h,
)

initial_byebye-AreNotices :
    (wait_mode : Bool) (w : World) (self : InteractiveSsdp)
    → AreNotices self.remote_desc_url (initial_byebye wait_mode w self)
unfolding initial_byebye
initial_byebye-AreNotices true w self = tt
initial_byebye-AreNotices false w self = send_byebye-AreNotices w self ssdp_address [] tt

farewell-AreNotices :
    (in_time : Bool) (w : World) (self : InteractiveSsdp) (sent : Sent)
    → AreNotices self.remote_desc_url sent
    → AreNotices self.remote_desc_url (farewell in_time w self sent)
unfolding farewell
farewell-AreNotices true w self sent h = send_byebye-AreNotices w self ssdp_address sent h
farewell-AreNotices false w self sent h = h

-- what the broadcast socket has sent when the shutdown handler is done
abbrev pub sent_in_all : Sent → Shutdown → Sent
sent_in_all sent (exits status later) = later
sent_in_all sent waits_forever = sent

on_signal-AreNotices :
    (name : Option Str) (in_time : Bool) (w : World) (self : InteractiveSsdp) (sent : Sent)
    → AreNotices self.remote_desc_url sent
    → AreNotices self.remote_desc_url (sent_in_all sent (on_signal name in_time w self sent))
unfolding on_signal
on_signal-AreNotices none in_time w self sent h = h
on_signal-AreNotices (some name) in_time w self sent h = farewell-AreNotices in_time w self sent h

module _ (parse : Bytes → Option Request) (ssdp : SsdpManager) (wait_mode : Bool) (w : World)
    (rounds : List Round) (received : List Received) where
  pub listener-AreAnswers :
      AreAnswers ssdp.interactive_ssdp.remote_desc_url
        (sent_by (main_task parse ssdp wait_mode w rounds received).listener)
  unfolding main_task
  listener-AreAnswers =
      Replies-AreAnswers parse ssdp.interactive_ssdp received _
        (listen_task-Replies parse ssdp.interactive_ssdp received)

  pub broadcasting-AreNotices :
      0 < ssdp.broadcast_period
      → (b : Broadcaster) × ((main_task parse ssdp wait_mode w rounds received).broadcasting
          ≡ some b)
        × ((waited : Waited) (in_time : Bool) (later : World)
            → AreNotices ssdp.interactive_ssdp.remote_desc_url (
                sent_in_all b.sent
                  (shutdown_handler waited in_time later ssdp.interactive_ssdp b.sent)))
  unfolding main_task broadcast_task shutdown_handler
  broadcasting-AreNotices pos =
      let positive : (ssdp.broadcast_period == 0) ≡ false = ground arith in
      let self = ssdp.interactive_ssdp in
      let greeting = initial_byebye wait_mode w self in
      let start : Broadcaster = record { now = 0; deadline = 0; sent = greeting; began = [] } in
      let all =
        announced-AreNotices self rounds greeting (initial_byebye-AreNotices wait_mode w self) in
      let b = broadcast_rounds self ssdp.broadcast_period rounds start in
      let sent = broadcast_rounds-sent self ssdp.broadcast_period rounds start in
      (
        b,
        rw positive,
        λ waited in_time later.
            on_signal-AreNotices (wait_for_shutdown_signal waited) in_time later self b.sent
              (subst (AreNotices self.remote_desc_url) (sym sent) all),
      )
