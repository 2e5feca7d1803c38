-- ===== src/Ssdp/Listener.antt =====
-- ssdp/listener.rs: `parse_ssdp` and `listen_task`, which answers M-SEARCH requests.
pub mod Headers
pub mod Answers
pub mod Replies
pub mod Task
pub mod Own
use dlna_proxy.Common.{
  ℕ, ◌-◌, Bool, false, ◌&&◌, ◌||◌, Option, none, some, List, [], ◌∷◌, ◌++◌, within, length, take,
  replicate, if◌then◌else◌,
}
use dlna_proxy.Text.{Bytes, Str, codes, equal}
use dlna_proxy.Text.Utf8.{from_utf8_lossy}
use dlna_proxy.Net.Addr.{SocketAddr}
use dlna_proxy.Ssdp.Utils.{World, InteractiveSsdp, Sent, send_ok}

-- a slot of the header array; `EMPTY_HEADER` has an empty name
pub record Header : Type 0 where
  pub name : Str
  pub value : Bytes

-- What `httparse::Request::parse` leaves when it returns `Ok`: the method, if it was read, and the array of
-- 16 headers.
pub record Request : Type 0 where
  pub method : Option Str
  pub headers : List Header

-- `HashMap<String, Cow<str>>`
abbrev pub HeaderMap : Type 0
HeaderMap = List (Str × Str)

unfoldable pub get : Str → HeaderMap → Option Str
unfolding equal
get k [] = none
get k ((j, v) ∷ m) = if equal j k then some v else get k m

unfoldable pub insert : Str → Str → HeaderMap → HeaderMap
unfolding equal
insert k v [] = (k, v) ∷ []
insert k v ((j, w) ∷ m) = if equal j k then (k, v) ∷ m else (j, w) ∷ insert k v m

-- a header's name is an ASCII token (httparse)
upper_char : ℕ → ℕ
upper_char c = if within b'a' b'z' c then c - 32 else c

unfoldable pub to_uppercase : Str → Str
unfolding upper_char
to_uppercase [] = []
to_uppercase (c ∷ s) = upper_char c ∷ to_uppercase s

-- `Ok`, an error, or a panic: an index out of the array's bounds
pub data Parsed : Type 0 where
  parsed : Str → HeaderMap → Parsed
  refused : Parsed
  out_of_bounds : Parsed

-- `while !headers[i].name.is_empty()`
unfoldable pub collect : Str → List Header → HeaderMap → Parsed
collect method [] m = out_of_bounds
collect method (h ∷ hs) m = elim h.name [
  | [] ↦ parsed method m
  | c ∷ name ↦ collect method hs (insert (to_uppercase (c ∷ name)) (from_utf8_lossy h.value) m)
]

with_method : Option Str → List Header → Parsed
with_method none hs = refused
with_method (some method) hs = collect method hs []

with_request : Option Request → Parsed
unfolding with_method
with_request none = refused
with_request (some r) = with_method r.method r.headers

-- `method == "M-SEARCH"` and one of the three targets
unfoldable pub should_respond : Str → Option Str → Bool
unfolding equal
should_respond method none = false
should_respond method (some header) =
    equal method (codes "M-SEARCH")
    && (equal header (codes "urn:schemas-upnp-org:device:MediaServer:1")
        || equal header (codes "ssdp:all")
        || equal header (codes "upnp:rootdevice"))

-- a result of `recv_from`, and the outside while it is handled
pub data Received : Type 0 where
  recv_error : Received
  datagram : Bytes → SocketAddr → World → Received

-- The listen task goes on, or has panicked.
pub data Listening : Type 0 where
  listening : Sent → Listening
  crashed : Sent → Listening

-- `[0; 1024]` with the datagram in front, cut to the buffer
abbrev pub buffer : Bytes → Bytes
buffer packet = take 1024 packet ++ replicate (1024 - length packet) 0

module _ (parse : Bytes → Option Request) where
  unfoldable pub parse_ssdp : Bytes → Parsed
  unfolding with_request
  parse_ssdp bytes = with_request (parse bytes)

  answer : InteractiveSsdp → World → SocketAddr → Sent → Parsed → Listening
  answer helper w src sent refused = listening sent
  answer helper w src sent out_of_bounds = crashed sent
  answer helper w src sent (parsed method m) =
      if should_respond method (get (codes "ST") m)
      then listening (send_ok w helper src sent).1
      else listening sent

  -- one round of the loop of `listen_task`
  unfoldable pub handle_received : InteractiveSsdp → Sent → Received → Listening
  unfolding answer
  handle_received helper sent recv_error = listening sent
  handle_received helper sent (datagram bytes src w) =
      answer helper w src sent (parse_ssdp (buffer bytes))

  -- the loop, over what is received
  unfoldable pub listen_task : InteractiveSsdp → Sent → List Received → Listening
  listen_task helper sent [] = listening sent
  listen_task helper sent (r ∷ rs) = elim (handle_received helper sent r) [
    | listening sent' ↦ listen_task helper sent' rs
    | crashed sent' ↦ crashed sent'
  ]
