-- ===== src/Ssdp/Listener/Own.antt =====
-- ssdp/listener.rs and ssdp/broadcast.rs together: the group delivers the program's own notices to its listener too.
use dlna_proxy.Common.{
  ℕ, ◌≤◌, Option, none, some, List, [], ◌∷◌, ◌++◌, ◌≡◌, refl, sym, ◌∙◌, ap, arith, All,
}
use dlna_proxy.Text.{Bytes, Str, codes}
use dlna_proxy.Text.Utf8.{as_bytes, encode_char, from_utf8_lossy}
use dlna_proxy.Net.Addr.{SocketAddr}
use dlna_proxy.Ssdp.Packet.{alive, bye_bye, fmt}
use dlna_proxy.Ssdp.Utils.{World, InteractiveSsdp, Sent}
use dlna_proxy.Ssdp.Listener.{
  Header, HeaderMap, Request, insert, to_uppercase, Received, datagram, buffer, parsed, parse_ssdp,
  with_request, with_method, collect, listen_task,
}
use dlna_proxy.Ssdp.Listener.Replies.{
  IsReply, Replies, no_more, passed_over, replied, sent_by, listen_task-Replies,
}

abbrev pub IsCapital : ℕ → Type 0
IsCapital c = (b'A' ≤ c) × (c ≤ b'Z')

-- `httparse::Request::parse`: the method of a request is what stands in front of the first space.
abbrev pub ReadsMethod : (Bytes → Option Request) → Type 0
ReadsMethod parse =
    (word rest : Bytes) (r : Request) (method : Str)
    → All IsCapital word
    → parse (word ++ b' ' ∷ rest) ≡ some r
    → r.method ≡ some method
    → method ≡ word

-- a NOTIFY request, of this program or any other device: the word and a space, and then anything
abbrev pub IsNotice : Bytes → Type 0
IsNotice bytes = (rest : Bytes) × (bytes ≡ codes "NOTIFY" ++ b' ' ∷ rest)

-- The program's own announcements and farewells are such requests.
fmt-IsNotice :
    (now url server udn device_type : Str) (age : ℕ)
    → IsNotice (as_bytes (fmt now (alive url server udn device_type age)))
      × IsNotice (as_bytes (fmt now (bye_bye udn device_type)))
unfolding as_bytes fmt encode_char
fmt-IsNotice now url server udn device_type age = ((_, refl), (_, refl))

-- The word is within what the listener's buffer takes of the datagram.
notice_word :
    (bytes : Bytes)
    → IsNotice bytes
    → (rest : Bytes) × (buffer bytes ≡ codes "NOTIFY" ++ b' ' ∷ rest)
notice_word bytes (rest, e) = (_, ap buffer e)

-- one slot of the array, and the rest of the loop
slot-method :
    (method method' : Str) (h : Header) (hs : List Header) (m m' : HeaderMap) (name : Str)
    → h.name ≡ name
    → collect method (h ∷ hs) m ≡ parsed method' m'
    → ((n : HeaderMap) → collect method hs n ≡ parsed method' m' → method ≡ method')
    → method ≡ method'
unfolding collect
slot-method method method' h hs m m' [] n e k =
    let stops : collect method (h ∷ hs) m ≡ parsed method m = rw n in cc (stops, e)
slot-method method method' h hs m m' (c ∷ cs) n e k =
    let next = insert (to_uppercase (c ∷ cs)) (from_utf8_lossy h.value) m in
    let goes_on : collect method (h ∷ hs) m ≡ collect method hs next = rw n in
    k next (sym goes_on ∙ e)

collect-method :
    (method method' : Str) (hs : List Header) (m m' : HeaderMap)
    → collect method hs m ≡ parsed method' m'
    → method ≡ method'
unfolding collect
collect-method method method' [] m m' e = absurd (cc e)
collect-method method method' (h ∷ hs) m m' e =
    slot-method method method' h hs m m' h.name refl e (λ n. collect-method method method' hs n m')

with_method-method :
    (o : Option Str) (hs : List Header) (method : Str) (m : HeaderMap)
    → with_method o hs ≡ parsed method m
    → o ≡ some method
unfolding with_method
with_method-method none hs method m e = absurd (cc e)
with_method-method (some method') hs method m e = ap some (collect-method method' method hs [] m e)

with_request-method :
    (o : Option Request) (method : Str) (m : HeaderMap)
    → with_request o ≡ parsed method m
    → (r : Request) × (o ≡ some r) × (r.method ≡ some method)
unfolding with_request
with_request-method none method m e = absurd (cc e)
with_request-method (some r) method m e =
    (r, refl, with_method-method r.method r.headers method m e)

module _ (parse : Bytes → Option Request) (helper : InteractiveSsdp)
    (reads : ReadsMethod parse) where
  no-IsReply : (bytes bs : Bytes) (w : World) → IsNotice bytes → ¬ IsReply parse helper bytes w bs
  unfolding parse_ssdp
  no-IsReply bytes bs w notice reply =
      let (rest, word) = notice_word bytes notice in
      let (r, is, method) =
        with_request-method (parse (buffer bytes)) reply.method reply.headers reply.is_request in
      let is_notify : reply.method ≡ codes "NOTIFY" =
        reads (codes "NOTIFY") rest r reply.method (omega arith) (rw word at is) method in
      cc (is_notify, reply.is_search.0)

  -- What is received, and what of it is left without the notices in it.
  pub data WithNotices : List Received → List Received → Type 0 where
    nothing : WithNotices [] []
    notice :
        {rs others : List Received} {bytes : Bytes} (src : SocketAddr) (w : World)
        → IsNotice bytes
        → WithNotices rs others
        → WithNotices (datagram bytes src w ∷ rs) others
    other :
        {rs others : List Received} (r : Received)
        → WithNotices rs others
        → WithNotices (r ∷ rs) (r ∷ others)

  Replies-others :
      {rs others : List Received} {sent : Sent}
      → Replies parse helper rs sent
      → WithNotices rs others
      → Replies parse helper others sent
  Replies-others no_more nothing = no_more
  Replies-others (passed_over r h) (notice src w n o) = Replies-others h o
  Replies-others (passed_over r h) (other _ o) = passed_over r (Replies-others h o)
  Replies-others (replied src reply h) (notice _ w n o) = absurd (no-IsReply _ _ _ n reply)
  Replies-others (replied src reply h) (other _ o) = replied src reply (Replies-others h o)

  -- With a parser that reads the method as httparse does, no NOTIFY request is ever answered, of whatever device and
  -- with whatever headers: wherever such requests stand between the other datagrams and the errors of the socket,
  -- what the task sends answers only searches among the others. The announcements and farewells of the program
  -- itself, which the multicast group delivers to its listener as well, are such requests.
  pub listen_task-others :
      (rs others : List Received)
      → WithNotices rs others
      → Replies parse helper others (sent_by (listen_task parse helper [] rs))
        × ((now url server udn device_type : Str) (age : ℕ)
            → IsNotice (as_bytes (fmt now (alive url server udn device_type age)))
              × IsNotice (as_bytes (fmt now (bye_bye udn device_type))))
  listen_task-others rs others o =
      (Replies-others (listen_task-Replies parse helper rs) o, fmt-IsNotice)
