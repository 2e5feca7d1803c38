-- ===== src/Ssdp/Listener/Answers.antt =====
-- Which datagrams the listen task answers, and which one stops it.
use dlna_proxy.Common.{
  true, Option, none, some, List, [], ◌∷◌, ◌++◌, ◌⊎◌, inl, inr, ◌↔◌, ◌≡◌, refl, arith, All,
  Bool-cases, ◌∙◌,
}
use dlna_proxy.Text.{Bytes, Str, codes}
use dlna_proxy.Net.Addr.{SocketAddr}
use dlna_proxy.Ssdp.Utils.{World, InteractiveSsdp, Sent, send_ok}
use dlna_proxy.Ssdp.Listener.{
  Header, Request, get, parsed, should_respond, Received, recv_error, datagram, listening, crashed,
  buffer, parse_ssdp, answer, handle_received, listen_task,
}
use dlna_proxy.Ssdp.Listener.Headers.{
  equal_iff, last_value, collected, get-collected, IsNamed, IsEmpty, collect-parsed,
  collect-out_of_bounds,
}

-- a search for the device type that is announced, for all devices or for root devices
abbrev pub IsSearch : Str → Option Str → Type 0
IsSearch method target =
    (method ≡ codes "M-SEARCH")
    × ((target ≡ some (codes "urn:schemas-upnp-org:device:MediaServer:1"))
        ⊎ (target ≡ some (codes "ssdp:all"))
        ⊎ (target ≡ some (codes "upnp:rootdevice")))

pub should_respond_iff :
    (method : Str) (target : Option Str)
    → (should_respond method target ≡ true) ↔ IsSearch method target
unfolding should_respond
should_respond_iff method none = ground arith
should_respond_iff method (some t) = ground (
  arith,
  equal_iff method (codes "M-SEARCH"),
  equal_iff t (codes "urn:schemas-upnp-org:device:MediaServer:1"),
  equal_iff t (codes "ssdp:all"),
  equal_iff t (codes "upnp:rootdevice"),
)

module _ (parse : Bytes → Option Request) (helper : InteractiveSsdp) (sent : Sent) (bytes : Bytes)
    (src : SocketAddr) (w : World) (method : Str) (hs : List Header) (named : All IsNamed hs) where
  handled :
      (empty : Header) (rest : List Header)
      → parse (buffer bytes) ≡ some (record { method = some method; headers = hs ++ empty ∷ rest })
      → IsEmpty empty
      → handle_received parse helper sent (datagram bytes src w)
        ≡ answer parse helper w src sent (parsed method (collected hs []))
  unfolding handle_received parse_ssdp
  handled empty rest p e = rw (p, collect-parsed method hs empty rest [] named e)

  -- A request that the parser accepts, with fewer headers than slots, is answered to its sender if and only if
  -- it is an M-SEARCH whose last ST header, in any case of letters, asks for one of the three targets. Otherwise
  -- nothing is sent. In both cases the task goes on.
  pub handle_received-answers :
      (empty : Header) (rest : List Header)
      → parse (buffer bytes) ≡ some (record { method = some method; headers = hs ++ empty ∷ rest })
      → IsEmpty empty
      → (IsSearch method (last_value (codes "ST") hs none)
          × (handle_received parse helper sent (datagram bytes src w)
              ≡ listening (send_ok w helper src sent).1))
        ⊎ ((¬ IsSearch method (last_value (codes "ST") hs none))
            × (handle_received parse helper sent (datagram bytes src w) ≡ listening sent))
  unfolding answer get
  handle_received-answers empty rest p e =
      let target = last_value (codes "ST") hs none in
      let iff = should_respond_iff method target in
      elim (Bool-cases (should_respond method target)) [
        | inl asked ↦
            inl (iff.0 asked, handled empty rest p e ∙ rw (get-collected (codes "ST") hs [], asked))
        | inr not_asked ↦ inr (
          λ s. cc (iff.1 s),
          handled empty rest p e ∙ rw (get-collected (codes "ST") hs [], not_asked),
        )
      ]

  -- A request whose headers fill every slot of the array stops the listen task with a panic: nothing that
  -- arrives later is handled.
  pub listen_task_crash :
      (later : List Received)
      → parse (buffer bytes) ≡ some (record { method = some method; headers = hs })
      → listen_task parse helper sent (datagram bytes src w ∷ later) ≡ crashed sent
  unfolding handle_received parse_ssdp listen_task
  listen_task_crash later p = rw (p, collect-out_of_bounds method hs [] named, listen_task)

-- a result of the socket that gives nothing to answer: an error, or bytes that the parser refuses
abbrev IsSkipped : (Bytes → Option Request) → Received → Type 0
IsSkipped parse recv_error = Unit
IsSkipped parse (datagram bytes src w) = parse (buffer bytes) ≡ none

handle_received-IsSkipped :
    (parse : Bytes → Option Request) (helper : InteractiveSsdp) (sent : Sent) (r : Received)
    → IsSkipped parse r
    → handle_received parse helper sent r ≡ listening sent
unfolding handle_received parse_ssdp
handle_received-IsSkipped parse helper sent recv_error h = refl
handle_received-IsSkipped parse helper sent (datagram bytes src w) h = rw h

-- Any number of socket errors and of datagrams that the parser refuses change nothing: the task goes on with what
-- comes behind them.
listen_task-skips :
    (parse : Bytes → Option Request) (helper : InteractiveSsdp) (sent : Sent)
    (skipped later : List Received)
    → All (IsSkipped parse) skipped
    → listen_task parse helper sent (skipped ++ later) ≡ listen_task parse helper sent later
unfolding listen_task
listen_task-skips parse helper sent [] later hs = refl
listen_task-skips parse helper sent (r ∷ skipped) later (h, hs) =
    rw (handle_received-IsSkipped parse helper sent r h, listen_task)
      (listen_task-skips parse helper sent skipped later hs)
