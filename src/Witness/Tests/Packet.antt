-- ===== src/Witness/Tests/Packet.antt =====
-- ssdp/packet.rs: the source's own tests of the messages.
use dlna_proxy.Common.{Bool, true, not, ◌&&◌, ◌≡◌, refl}
use dlna_proxy.Text.{Str, codes, contains, starts_with}
use dlna_proxy.Ssdp.Packet.{SsdpPacket, alive, ok, bye_bye, fmt}
use dlna_proxy.Witness.Tests.{ends_with}

-- `packet.to_string()`, at a time that chrono prints so
abbrev to_string : SsdpPacket → Str
to_string packet = fmt (codes "Tue, 1 Jul 2025 10:00:00 +0000") packet

abbrev test_alive_starts_with_notify : Bool
test_alive_starts_with_notify =
    let output = to_string (
      alive (codes "http://192.168.1.1:8080/desc.xml") (codes "Test/1.0") (codes "uuid:test-device")
        (codes "urn:schemas-upnp-org:device:MediaServer:1") 1800) in
    starts_with output (codes "NOTIFY * HTTP/1.1\r\n")

abbrev test_alive_has_host_header : Bool
test_alive_has_host_header =
    let output = to_string (
      alive (codes "http://192.168.1.1:8080/desc.xml") (codes "Test/1.0") (codes "uuid:test-device")
        (codes "urn:schemas-upnp-org:device:MediaServer:1") 1800) in
    contains output (codes "HOST:239.255.255.250:1900\r\n")

abbrev test_alive_has_cache_control : Bool
test_alive_has_cache_control =
    let output = to_string (
      alive (codes "http://192.168.1.1:8080/desc.xml") (codes "Test/1.0") (codes "uuid:test-device")
        (codes "urn:schemas-upnp-org:device:MediaServer:1") 1800) in
    contains output (codes "CACHE-CONTROL:max-age=1800\r\n")

abbrev test_alive_has_location : Bool
test_alive_has_location =
    let output = to_string (
      alive (codes "http://192.168.1.1:8080/desc.xml") (codes "Test/1.0") (codes "uuid:test-device")
        (codes "urn:schemas-upnp-org:device:MediaServer:1") 1800) in
    contains output (codes "LOCATION:http://192.168.1.1:8080/desc.xml\r\n")

abbrev test_alive_has_server : Bool
test_alive_has_server =
    let output = to_string (
      alive (codes "http://192.168.1.1:8080/desc.xml") (codes "Test/1.0 UPnP/1.0")
        (codes "uuid:test-device") (codes "urn:schemas-upnp-org:device:MediaServer:1") 1800) in
    contains output (codes "SERVER: Test/1.0 UPnP/1.0\r\n")

abbrev test_alive_has_nt_usn_nts : Bool
test_alive_has_nt_usn_nts =
    let output = to_string (
      alive (codes "http://192.168.1.1:8080/desc.xml") (codes "Test/1.0")
        (codes "uuid:test-device-123") (codes "urn:schemas-upnp-org:device:MediaServer:1") 1800) in
    contains output (codes "NT:urn:schemas-upnp-org:device:MediaServer:1\r\n")
    && contains output
        (codes "USN:uuid:test-device-123::urn:schemas-upnp-org:device:MediaServer:1\r\n")
    && contains output (codes "NTS:ssdp:alive\r\n")

abbrev test_alive_ends_with_empty_line : Bool
test_alive_ends_with_empty_line =
    let output = to_string (
      alive (codes "http://192.168.1.1:8080/desc.xml") (codes "Test/1.0") (codes "uuid:test-device")
        (codes "urn:schemas-upnp-org:device:MediaServer:1") 1800) in
    ends_with output (codes "\r\n\r\n")

abbrev test_ok_starts_with_http_200 : Bool
test_ok_starts_with_http_200 =
    let output = to_string (
      ok (codes "http://192.168.1.1:8080/desc.xml") (codes "Test/1.0") (codes "uuid:test-device")
        (codes "urn:schemas-upnp-org:device:MediaServer:1") 1800) in
    starts_with output (codes "HTTP/1.1 200 OK\r\n")

abbrev test_ok_has_date_header : Bool
test_ok_has_date_header =
    let output = to_string (
      ok (codes "http://192.168.1.1:8080/desc.xml") (codes "Test/1.0") (codes "uuid:test-device")
        (codes "urn:schemas-upnp-org:device:MediaServer:1") 1800) in
    contains output (codes "DATE:") && contains output (codes "GMT")

abbrev test_ok_has_st_header : Bool
test_ok_has_st_header =
    let output = to_string (
      ok (codes "http://192.168.1.1:8080/desc.xml") (codes "Test/1.0") (codes "uuid:test-device")
        (codes "urn:schemas-upnp-org:device:MediaServer:1") 1800) in
    contains output (codes "ST: urn:schemas-upnp-org:device:MediaServer:1\r\n")

abbrev test_ok_has_ext_header : Bool
test_ok_has_ext_header =
    let output = to_string (
      ok (codes "http://192.168.1.1:8080/desc.xml") (codes "Test/1.0") (codes "uuid:test-device")
        (codes "urn:schemas-upnp-org:device:MediaServer:1") 1800) in
    contains output (codes "EXT:\r\n")

abbrev test_ok_has_content_length_zero : Bool
test_ok_has_content_length_zero =
    let output = to_string (
      ok (codes "http://192.168.1.1:8080/desc.xml") (codes "Test/1.0") (codes "uuid:test-device")
        (codes "urn:schemas-upnp-org:device:MediaServer:1") 1800) in
    contains output (codes "Content-Length: 0\r\n")

abbrev test_byebye_starts_with_notify : Bool
test_byebye_starts_with_notify =
    let output =
      to_string
        (bye_bye (codes "uuid:test-device") (codes "urn:schemas-upnp-org:device:MediaServer:1")) in
    starts_with output (codes "NOTIFY * HTTP/1.1\r\n")

abbrev test_byebye_has_host : Bool
test_byebye_has_host =
    let output =
      to_string
        (bye_bye (codes "uuid:test-device") (codes "urn:schemas-upnp-org:device:MediaServer:1")) in
    contains output (codes "HOST:239.255.255.250:1900\r\n")

abbrev test_byebye_has_nts_byebye : Bool
test_byebye_has_nts_byebye =
    let output =
      to_string
        (bye_bye (codes "uuid:test-device") (codes "urn:schemas-upnp-org:device:MediaServer:1")) in
    contains output (codes "NTS:ssdp:byebye\r\n")

abbrev test_byebye_no_cache_control : Bool
test_byebye_no_cache_control =
    let output =
      to_string
        (bye_bye (codes "uuid:test-device") (codes "urn:schemas-upnp-org:device:MediaServer:1")) in
    not (contains output (codes "CACHE-CONTROL"))

abbrev test_byebye_no_location : Bool
test_byebye_no_location =
    let output =
      to_string
        (bye_bye (codes "uuid:test-device") (codes "urn:schemas-upnp-org:device:MediaServer:1")) in
    not (contains output (codes "LOCATION"))

abbrev test_byebye_no_server : Bool
test_byebye_no_server =
    let output =
      to_string
        (bye_bye (codes "uuid:test-device") (codes "urn:schemas-upnp-org:device:MediaServer:1")) in
    not (contains output (codes "SERVER"))

-- All of them pass.
packet_tests :
    (test_alive_starts_with_notify && test_alive_has_host_header && test_alive_has_cache_control
      && test_alive_has_location && test_alive_has_server && test_alive_has_nt_usn_nts
      && test_alive_ends_with_empty_line && test_ok_starts_with_http_200 && test_ok_has_date_header
      && test_ok_has_st_header && test_ok_has_ext_header && test_ok_has_content_length_zero
      && test_byebye_starts_with_notify && test_byebye_has_host && test_byebye_has_nts_byebye
      && test_byebye_no_cache_control && test_byebye_no_location && test_byebye_no_server)
    ≡ true
unfolding fmt starts_with contains ends_with
packet_tests = refl
