-- ===== src/Ssdp/Listener/Task.antt =====
-- ssdp/listener.rs: the listen task as a relation on what it receives.
use dlna_proxy.Common.{
  Option, none, some, List, [], ◌∷◌, ◌++◌, inl, inr, ◌↔◌, ◌≡◌, refl, ◌∙◌, subst, All,
}
use dlna_proxy.Text.{Bytes, Str, codes}
use dlna_proxy.Net.Addr.{SocketAddr}
use dlna_proxy.Ssdp.Utils.{World, InteractiveSsdp, Sent, send_ok}
use dlna_proxy.Ssdp.Listener.{
  Header, Request, Received, recv_error, datagram, Listening, listening, crashed, buffer, refused,
  parse_ssdp, handle_received, listen_task,
}
use dlna_proxy.Ssdp.Listener.Headers.{last_value, IsNamed, IsEmpty}
use dlna_proxy.Ssdp.Listener.Answers.{IsSearch, handle_received-answers, listen_task_crash}

-- The headers in front of the first empty slot, or all of a full array.
data Slots : List Header → Type 0 where
  room :
      (hs : List Header) (empty : Header) (rest : List Header)
      → All IsNamed hs
      → IsEmpty empty
      → Slots (hs ++ empty ∷ rest)
  full : (hs : List Header) → All IsNamed hs → Slots hs

slot : (h : Header) → (hs : List Header) → Slots hs → (name : Str) → h.name ≡ name → Slots (h ∷ hs)
slot h hs s [] e = room [] h hs tt e
slot h _ (room hs empty rest named e) (c ∷ cs) n =
    room (h ∷ hs) empty rest ((λ z. cc (n, z)), named) e
slot h _ (full hs named) (c ∷ cs) n = full (h ∷ hs) ((λ z. cc (n, z)), named)

slots : (hs : List Header) → Slots hs
slots [] = full [] tt
slots (h ∷ hs) = slot h hs (slots hs) h.name refl

module _ (parse : Bytes → Option Request) (helper : InteractiveSsdp) where
  -- a request, as the parser leaves it
  abbrev Reads : Bytes → Option Str → List Header → Type 0
  Reads bytes method hs = parse (buffer bytes) ≡ some (record { method = method; headers = hs })

  -- A run of the listen task, from what its socket has sent to how the task stands: what is received, one after the
  -- other, and what is done about it.
  pub data Serves : List Received → Sent → Listening → Type 0 where
    waits : {sent : Sent} → Serves [] sent (listening sent)
    socket_error :
        {rs : List Received} {sent : Sent} {l : Listening}
        → Serves rs sent l
        → Serves (recv_error ∷ rs) sent l
    no_request :
        {rs : List Received} {sent : Sent} {l : Listening} (bytes : Bytes) (src : SocketAddr)
        (w : World)
        → parse (buffer bytes) ≡ none
        → Serves rs sent l
        → Serves (datagram bytes src w ∷ rs) sent l
    no_method :
        {rs : List Received} {sent : Sent} {l : Listening} (bytes : Bytes) (src : SocketAddr)
        (w : World) (hs : List Header)
        → Reads bytes none hs
        → Serves rs sent l
        → Serves (datagram bytes src w ∷ rs) sent l
    search :
        {rs : List Received} {sent : Sent} {l : Listening} (bytes : Bytes) (src : SocketAddr)
        (w : World) (method : Str) (hs : List Header) (empty : Header) (rest : List Header)
        → Reads bytes (some method) (hs ++ empty ∷ rest)
        → All IsNamed hs
        → IsEmpty empty
        → IsSearch method (last_value (codes "ST") hs none)
        → Serves rs (send_ok w helper src sent).1 l
        → Serves (datagram bytes src w ∷ rs) sent l
    no_search :
        {rs : List Received} {sent : Sent} {l : Listening} (bytes : Bytes) (src : SocketAddr)
        (w : World) (method : Str) (hs : List Header) (empty : Header) (rest : List Header)
        → Reads bytes (some method) (hs ++ empty ∷ rest)
        → All IsNamed hs
        → IsEmpty empty
        → (¬ IsSearch method (last_value (codes "ST") hs none))
        → Serves rs sent l
        → Serves (datagram bytes src w ∷ rs) sent l
    too_many :
        {rs : List Received} {sent : Sent} (bytes : Bytes) (src : SocketAddr) (w : World)
        (method : Str) (hs : List Header)
        → Reads bytes (some method) hs
        → All IsNamed hs
        → Serves (datagram bytes src w ∷ rs) sent (crashed sent)

  goes_on :
      (r : Received) (rs : List Received) (sent sent' : Sent)
      → handle_received parse helper sent r ≡ listening sent'
      → listen_task parse helper sent (r ∷ rs) ≡ listen_task parse helper sent' rs
  unfolding listen_task
  goes_on r rs sent sent' h = rw (h, listen_task)

  on_request :
      (bytes : Bytes) (src : SocketAddr) (w : World) (rs : List Received) (sent : Sent)
      (method : Str) (hs : List Header)
      → Reads bytes (some method) hs
      → Slots hs
      → ((sent' : Sent) → Serves rs sent' (listen_task parse helper sent' rs))
      → Serves
          (datagram bytes src w ∷ rs)
          sent
          (listen_task parse helper sent (datagram bytes src w ∷ rs))
  on_request bytes src w rs sent method _ reads (room hs empty rest named e) ih =
      elim (handle_received-answers parse helper sent bytes src w method hs named empty rest reads
        e) [
          | inl (is, h) ↦
              rw (goes_on (datagram bytes src w) rs sent _ h)
                (search bytes src w method hs empty rest reads named e is (ih _))
          | inr (is_not, h) ↦
              rw (goes_on (datagram bytes src w) rs sent _ h)
                (no_search bytes src w method hs empty rest reads named e is_not (ih sent))
        ]
  on_request bytes src w rs sent method _ reads (full hs named) ih =
      rw (listen_task_crash parse helper sent bytes src w method hs named rs reads)
        (too_many bytes src w method hs reads named)

  -- a datagram that gives nothing to answer
  passed_over :
      (bytes : Bytes) (src : SocketAddr) (w : World) (rs : List Received) (sent : Sent)
      → parse_ssdp parse (buffer bytes) ≡ refused
      → listen_task parse helper sent (datagram bytes src w ∷ rs) ≡ listen_task parse helper sent rs
  unfolding handle_received
  passed_over bytes src w rs sent h = goes_on (datagram bytes src w) rs sent sent (rw h)

  is_refused :
      (bytes : Bytes) → parse (buffer bytes) ≡ none → parse_ssdp parse (buffer bytes) ≡ refused
  unfolding parse_ssdp
  is_refused bytes h = rw h

  has_no_method :
      (bytes : Bytes) (hs : List Header)
      → Reads bytes none hs
      → parse_ssdp parse (buffer bytes) ≡ refused
  unfolding parse_ssdp
  has_no_method bytes hs h = rw h

  on_method :
      (bytes : Bytes) (src : SocketAddr) (w : World) (rs : List Received) (sent : Sent)
      (method : Option Str) (hs : List Header)
      → Reads bytes method hs
      → ((sent' : Sent) → Serves rs sent' (listen_task parse helper sent' rs))
      → Serves
          (datagram bytes src w ∷ rs)
          sent
          (listen_task parse helper sent (datagram bytes src w ∷ rs))
  on_method bytes src w rs sent none hs is ih =
      rw (passed_over bytes src w rs sent (has_no_method bytes hs is))
        (no_method bytes src w hs is (ih sent))
  on_method bytes src w rs sent (some method) hs is ih =
      on_request bytes src w rs sent method hs is (slots hs) ih

  on_parsed :
      (bytes : Bytes) (src : SocketAddr) (w : World) (rs : List Received) (sent : Sent)
      (p : Option Request)
      → parse (buffer bytes) ≡ p
      → ((sent' : Sent) → Serves rs sent' (listen_task parse helper sent' rs))
      → Serves
          (datagram bytes src w ∷ rs)
          sent
          (listen_task parse helper sent (datagram bytes src w ∷ rs))
  on_parsed bytes src w rs sent none is ih =
      rw (passed_over bytes src w rs sent (is_refused bytes is))
        (no_request bytes src w is (ih sent))
  on_parsed bytes src w rs sent (some r) is ih =
      on_method bytes src w rs sent r.method r.headers is ih

  listen_task-Serves :
      (rs : List Received) (sent : Sent) → Serves rs sent (listen_task parse helper sent rs)
  unfolding listen_task handle_received
  listen_task-Serves [] sent = waits
  listen_task-Serves (recv_error ∷ rs) sent = socket_error (listen_task-Serves rs sent)
  listen_task-Serves (datagram bytes src w ∷ rs) sent =
      on_parsed bytes src w rs sent (parse (buffer bytes)) refl
        (λ sent'. listen_task-Serves rs sent')

  asked-goes_on :
      (bytes : Bytes) (src : SocketAddr) (w : World) (rs : List Received) (sent : Sent)
      (method : Str) (hs : List Header) (empty : Header) (rest : List Header)
      → Reads bytes (some method) (hs ++ empty ∷ rest)
      → All IsNamed hs
      → IsEmpty empty
      → IsSearch method (last_value (codes "ST") hs none)
      → listen_task parse helper sent (datagram bytes src w ∷ rs)
        ≡ listen_task parse helper (send_ok w helper src sent).1 rs
  asked-goes_on bytes src w rs sent method hs empty rest reads named e is =
      elim (handle_received-answers parse helper sent bytes src w method hs named empty rest reads
        e) [
          | inl (_, h) ↦ goes_on (datagram bytes src w) rs sent _ h
          | inr (is_not, h) ↦ absurd (is_not is)
        ]

  not_asked-goes_on :
      (bytes : Bytes) (src : SocketAddr) (w : World) (rs : List Received) (sent : Sent)
      (method : Str) (hs : List Header) (empty : Header) (rest : List Header)
      → Reads bytes (some method) (hs ++ empty ∷ rest)
      → All IsNamed hs
      → IsEmpty empty
      → (¬ IsSearch method (last_value (codes "ST") hs none))
      → listen_task parse helper sent (datagram bytes src w ∷ rs) ≡ listen_task parse helper sent rs
  not_asked-goes_on bytes src w rs sent method hs empty rest reads named e is_not =
      elim (handle_received-answers parse helper sent bytes src w method hs named empty rest reads
        e) [
          | inl (is, h) ↦ absurd (is_not is)
          | inr (_, h) ↦ goes_on (datagram bytes src w) rs sent sent h
        ]

  Serves-listen_task :
      (rs : List Received) (sent : Sent) {l : Listening}
      → Serves rs sent l
      → listen_task parse helper sent rs ≡ l
  unfolding listen_task handle_received
  Serves-listen_task _ sent waits = refl
  Serves-listen_task (_ ∷ rs) sent (socket_error s) = Serves-listen_task rs sent s
  Serves-listen_task (_ ∷ rs) sent (no_request bytes src w is s) =
      passed_over bytes src w rs sent (is_refused bytes is) ∙ Serves-listen_task rs sent s
  Serves-listen_task (_ ∷ rs) sent (no_method bytes src w hs is s) =
      passed_over bytes src w rs sent (has_no_method bytes hs is) ∙ Serves-listen_task rs sent s
  Serves-listen_task (_ ∷ rs) sent (search bytes src w method hs empty rest reads named e is s) =
      asked-goes_on bytes src w rs sent method hs empty rest reads named e is
      ∙ Serves-listen_task rs (send_ok w helper src sent).1 s
  Serves-listen_task (_ ∷ rs) sent
        (no_search bytes src w method hs empty rest reads named e is_not s) =
      not_asked-goes_on bytes src w rs sent method hs empty rest reads named e is_not
      ∙ Serves-listen_task rs sent s
  Serves-listen_task (_ ∷ rs) sent (too_many bytes src w method hs reads named) =
      listen_task_crash parse helper sent bytes src w method hs named rs reads

  -- For every parser and everything that the socket gives, the listen task does what the relation says, and nothing
  -- else: an error of the socket, bytes that are refused and a request without a method are passed over, a search
  -- for one of the three targets is answered to its sender, other requests are not, and a request that leaves no
  -- slot of the header array empty ends the task, with no regard to what comes later.
  pub listen_task-refines :
      (rs : List Received) (sent : Sent) (l : Listening)
      → (listen_task parse helper sent rs ≡ l) ↔ Serves rs sent l
  listen_task-refines rs sent l =
      (λ e. subst (Serves rs sent) e (listen_task-Serves rs sent), Serves-listen_task rs sent)
