-- ===== src/Witness/Ssdp.antt =====
-- ssdp/ at a concrete device, and datagrams.
mod Manager
mod Own
use dlna_proxy.Common.{
  ◌+◌, ◌*◌, ◌<◌, true, Option, none, some, List, [], ◌∷◌, ◌++◌, ◌↔◌, ◌≡◌, arith, replicate,
  if◌then◌else◌,
}
use dlna_proxy.Text.{Bytes, Str, codes, lines, starts_with}
use dlna_proxy.Net.Addr.{SocketAddr, v4}
use dlna_proxy.Ssdp.Packet.{SsdpPacket, alive, fmt}
use dlna_proxy.Text.Lines.{crlf_lines}
use dlna_proxy.Ssdp.Packet.Lines.{packet_lines, lines-fmt}
use dlna_proxy.Ssdp.Utils.{World, HttpResponse, DlnaDescription, InteractiveSsdp, send_ok}
use dlna_proxy.Ssdp.Listener.{Header, Request, recv_error, datagram, listening, listen_task}
use dlna_proxy.Ssdp.Listener.Replies.{Replies, sent_by, listen_task-Replies}
use dlna_proxy.Ssdp.Listener.Task.{Serves, listen_task-refines}
use dlna_proxy.Ssdp.Manager.{cache_max_age}

abbrev device : Str
device = codes "urn:schemas-upnp-org:device:MediaServer:1"

abbrev url : Str
url = codes "http://10.0.0.1:8080/rootDesc.xml"

abbrev response : HttpResponse
response = record { server = some (codes "MiniDLNA/1.3"); text = some (codes "<root/>") }

abbrev described : DlnaDescription
described = record { device = record { device_type = device; unique_device_name = codes "uuid:1" } }

-- the server answers, and the socket takes everything
abbrev up : World
up = record {
  http_get = λ u. some response;
  from_xml = λ s. some described;
  now = codes "Tue, 1 Jul 2025 10:00:00 +0000";
  udp_takes = λ a b. true;
}

-- the server is away
abbrev down : World
down = record {
  http_get = λ u. none;
  from_xml = λ s. none;
  now = codes "Tue, 1 Jul 2025 10:00:00 +0000";
  udp_takes = λ a b. true;
}

abbrev helper : InteractiveSsdp
helper = record { remote_desc_url = url; cache_max_age = 1790 }

abbrev player : SocketAddr
player = record { ip = v4 10 0 0 7; port = 50000 }

abbrev alive_message : SsdpPacket
alive_message = alive url (codes "MiniDLNA/1.3") (codes "uuid:1") device 1790

lines-fmt_example :
    (fmt (codes "now +0000") alive_message
      ≡ crlf_lines (packet_lines (codes "now +0000") alive_message))
    × (lines (fmt (codes "now +0000") alive_message)
        ≡ packet_lines (codes "now +0000") alive_message)
lines-fmt_example =
    lines-fmt (codes "now +0000") (alive url (codes "MiniDLNA/1.3") (codes "uuid:1") device 1790)
      (ground arith) (ground arith, ground arith, ground arith, ground arith)

abbrev header : Str → Str → Header
header name value = record { name = name; value = value }

abbrev search_headers : List Header
search_headers =
    header (codes "HOST") (codes "239.255.255.250:1900")
    ∷ header (codes "st") (codes "ssdp:all")
    ∷ []

abbrev request : List Header → Request
request hs = record { method = some (codes "M-SEARCH"); headers = hs }

-- a parser that knows one request line
abbrev parser : List Header → Bytes → Option Request
parser hs bytes = if starts_with bytes (codes "M-SEARCH") then some (request hs) else none

abbrev slot : Header
slot = header [] []

abbrev slots : List Header
slots = search_headers ++ slot ∷ replicate 13 slot

listen_task-refines_example :
    (listen_task (parser slots) helper [] (
        datagram (codes "junk") player up
        ∷ recv_error
        ∷ datagram (codes "M-SEARCH * HTTP/1.1") player up
        ∷ [])
      ≡ listening (send_ok up helper player []).1)
    ↔ Serves
        (parser slots)
        helper
        (datagram (codes "junk") player up
          ∷ recv_error
          ∷ datagram (codes "M-SEARCH * HTTP/1.1") player up
          ∷ [])
        []
        (listening (send_ok up helper player []).1)
listen_task-refines_example =
    listen_task-refines (parser slots) helper
      (datagram (codes "junk") player up
        ∷ recv_error
        ∷ datagram (codes "M-SEARCH * HTTP/1.1") player up
        ∷ [])
      [] (listening (send_ok up helper player []).1)

listen_task-Replies_example :
    Replies
      (parser slots)
      helper
      (recv_error ∷ datagram (codes "M-SEARCH * HTTP/1.1") player up ∷ [])
      (sent_by (
        listen_task
          (parser slots)
          helper
          []
          (recv_error ∷ datagram (codes "M-SEARCH * HTTP/1.1") player up ∷ [])))
listen_task-Replies_example =
    listen_task-Replies (parser slots) helper
      (recv_error ∷ datagram (codes "M-SEARCH * HTTP/1.1") player up ∷ [])
