-- ===== src/Ssdp/Utils.antt =====
-- ssdp/utils.rs: `InteractiveSSDP` fetches the remote server's description and sends a message made of it.
pub mod Outcome
use dlna_proxy.Common.{ℕ, Bool, Option, none, some, List, [], ◌∷◌, ◌++◌, if◌then◌else◌}
use dlna_proxy.Text.{Bytes, Str, codes}
use dlna_proxy.Text.Utf8.{as_bytes, from_utf8_lossy}
use dlna_proxy.Net.Addr.{SocketAddr}
use dlna_proxy.Ssdp.Packet.{SsdpPacket, alive, ok, bye_bye, fmt}

-- `DLNADevice` and `DLNADescription`
pub record DlnaDevice : Type 0 where
  pub device_type : Str
  pub unique_device_name : Str

pub record DlnaDescription : Type 0 where
  pub device : DlnaDevice

pub record EndpointInfo : Type 0 where
  pub device_type : Str
  pub unique_device_name : Str
  pub server : Str

-- what `reqwest` returns: the SERVER header's bytes, and the body, `none` if it cannot be read as text
pub record HttpResponse : Type 0 where
  pub server : Option Bytes
  pub text : Option Str

-- The outside as one action meets it: the HTTP client, `quick_xml`'s deserialiser, the clock (chrono),
-- and whether the UDP socket takes a datagram.
pub record World : Type 0 where
  pub http_get : Str → Option HttpResponse
  pub from_xml : Str → Option DlnaDescription
  pub now : Str
  pub udp_takes : SocketAddr → Bytes → Bool

-- the contexts that the code gives to its errors
pub data Error : Type 0 where
  get_failed text_failed xml_failed send_failed : Error

pub data Result (A : Type 0) : Type 0 where
  success : A → Result A
  failure : Error → Result A

infixl 5 ◌>>=◌
abbrev pub ◌>>=◌ : {A B : Type 0} → Result A → (A → Result B) → Result B
success a >>= f = f a
failure e >>= f = failure e

-- `.context(e)?`
abbrev pub context : {A : Type 0} → Option A → Error → Result A
context none e = failure e
context (some a) e = success a

-- the datagrams that a socket has sent
abbrev pub Sent : Type 0
Sent = List (SocketAddr × Bytes)

-- `InteractiveSSDP`, whose client is `World.http_get`
pub record InteractiveSsdp : Type 0 where
  pub remote_desc_url : Str
  pub cache_max_age : ℕ

unfoldable pub server_name : Option Bytes → Str
server_name none = codes "DLNAProxy/1.0"
server_name (some hv) = from_utf8_lossy hv

module _ (w : World) where
  unfoldable pub fetch_endpoint_info : InteractiveSsdp → Result EndpointInfo
  unfolding server_name
  fetch_endpoint_info self = do
    response ← context (w.http_get self.remote_desc_url) get_failed
    let server_ua = server_name response.server
    body ← context response.text text_failed
    description ← context (w.from_xml body) xml_failed
    success (record {
      device_type = description.device.device_type;
      unique_device_name = description.device.unique_device_name;
      server = server_ua;
    })

  -- `SSDPPacket::send_to`: one datagram, or an error
  unfoldable pub send_to : SsdpPacket → SocketAddr → Sent → Result (Unit {0}) × Sent
  send_to packet dest sent =
      let bytes = as_bytes (fmt w.now packet) in
      if w.udp_takes dest bytes
      then (success tt, sent ++ (dest, bytes) ∷ [])
      else (failure send_failed, sent)

  -- fetch, build the packet, send it
  unfoldable pub send_made :
      Result EndpointInfo
      → (EndpointInfo → SsdpPacket)
      → SocketAddr
      → Sent
      → Result (Unit {0}) × Sent
  send_made (failure e) make dest sent = (failure e, sent)
  send_made (success info) make dest sent = send_to (make info) dest sent

  unfoldable pub send_alive : InteractiveSsdp → SocketAddr → Sent → Result (Unit {0}) × Sent
  unfolding send_made
  send_alive self = send_made (fetch_endpoint_info self) λ info.
      alive self.remote_desc_url info.server info.unique_device_name info.device_type
        self.cache_max_age

  unfoldable pub send_ok : InteractiveSsdp → SocketAddr → Sent → Result (Unit {0}) × Sent
  unfolding send_made
  send_ok self = send_made (fetch_endpoint_info self) λ info.
      ok self.remote_desc_url info.server info.unique_device_name info.device_type
        self.cache_max_age

  unfoldable pub send_byebye : InteractiveSsdp → SocketAddr → Sent → Result (Unit {0}) × Sent
  unfolding send_made
  send_byebye self =
      send_made (fetch_endpoint_info self) λ info. bye_bye info.unique_device_name info.device_type
