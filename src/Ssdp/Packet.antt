-- ===== src/Ssdp/Packet.antt =====
-- ssdp/packet.rs: the SSDP messages and their text.
pub mod Lines
use dlna_proxy.Common.{ℕ, ◌∷◌, [], List, ◌++◌}
use dlna_proxy.Text.{Str, codes}
use dlna_proxy.Text.Number.{to_decimal}
use dlna_proxy.Text.Replace.{replace}

-- `SSDPPacket`
pub data SsdpPacket : Type 0 where
  alive : (desc_url server_ua unique_device_name device_type : Str) (cache_max_age : ℕ) → SsdpPacket
  ok : (desc_url server_ua unique_device_name device_type : Str) (cache_max_age : ℕ) → SsdpPacket
  bye_bye : (unique_device_name device_type : Str) → SsdpPacket

abbrev pub concat : List Str → Str
concat [] = []
concat (s ∷ ss) = s ++ concat ss

-- `fmt`; `now` is the text of `Utc::now().to_rfc2822()` (chrono)
unfoldable pub fmt : Str → SsdpPacket → Str
unfolding to_decimal replace
fmt now (alive desc_url server_ua unique_device_name device_type cache_max_age) = concat (
    codes "NOTIFY * HTTP/1.1\r\n"
    ∷ codes "HOST:239.255.255.250:1900\r\n"
    ∷ codes "CACHE-CONTROL:max-age="
    ∷ to_decimal cache_max_age
    ∷ codes "\r\n"
    ∷ codes "LOCATION:"
    ∷ desc_url
    ∷ codes "\r\n"
    ∷ codes "SERVER: "
    ∷ server_ua
    ∷ codes "\r\n"
    ∷ codes "NT:"
    ∷ device_type
    ∷ codes "\r\n"
    ∷ codes "USN:"
    ∷ unique_device_name
    ∷ codes "::"
    ∷ device_type
    ∷ codes "\r\n"
    ∷ codes "NTS:ssdp:alive\r\n"
    ∷ codes "\r\n"
    ∷ [])
fmt now (ok desc_url server_ua unique_device_name device_type cache_max_age) = concat (
    codes "HTTP/1.1 200 OK\r\n"
    ∷ codes "CACHE-CONTROL:max-age="
    ∷ to_decimal cache_max_age
    ∷ codes "\r\n"
    ∷ codes "DATE: "
    ∷ replace now (codes "+0000") (codes "GMT")
    ∷ codes "\r\n"
    ∷ codes "ST: "
    ∷ device_type
    ∷ codes "\r\n"
    ∷ codes "USN:"
    ∷ unique_device_name
    ∷ codes "::"
    ∷ device_type
    ∷ codes "\r\n"
    ∷ codes "EXT:\r\n"
    ∷ codes "SERVER: "
    ∷ server_ua
    ∷ codes "\r\n"
    ∷ codes "LOCATION:"
    ∷ desc_url
    ∷ codes "\r\n"
    ∷ codes "Content-Length: 0\r\n"
    ∷ codes "\r\n"
    ∷ [])
fmt now (bye_bye unique_device_name device_type) = concat (
    codes "NOTIFY * HTTP/1.1\r\n"
    ∷ codes "HOST:239.255.255.250:1900\r\n"
    ∷ codes "NT:"
    ∷ device_type
    ∷ codes "\r\n"
    ∷ codes "USN:"
    ∷ unique_device_name
    ∷ codes "::"
    ∷ device_type
    ∷ codes "\r\n"
    ∷ codes "NTS:ssdp:byebye\r\n"
    ∷ codes "\r\n"
    ∷ [])
