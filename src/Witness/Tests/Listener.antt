-- ===== src/Witness/Tests/Listener.antt =====
-- ssdp/listener.rs: the source's own tests of `parse_ssdp`, for a parser that does with their packets what the
-- documentation of httparse says.
use dlna_proxy.Common.{
  Bool, true, false, ◌&&◌, Option, none, some, List, [], ◌∷◌, ◌++◌, replicate, ◌≡◌,
}
use dlna_proxy.Text.{Bytes, Str, codes, equal}
use dlna_proxy.Text.Utf8.{from_utf8_lossy}
use dlna_proxy.Ssdp.Listener.{
  Header, Request, get, insert, to_uppercase, Parsed, parsed, refused, out_of_bounds, collect,
  parse_ssdp,
}

-- `assert_eq!(method, expected)` on `parse_ssdp(packet).unwrap()`
abbrev method_is : Parsed → Str → Bool
method_is (parsed method m) expected = equal method expected
method_is _ expected = false

abbrev is_some_of : Option Str → Str → Bool
is_some_of none expected = false
is_some_of (some value) expected = equal value expected

-- `assert_eq!(headers.get(name).map(|s| s.as_ref()), Some(expected))`
abbrev header_is : Parsed → Str → Str → Bool
header_is (parsed method m) name expected = is_some_of (get name m) expected
header_is _ name expected = false

abbrev is_there : Option Str → Bool
is_there none = false
is_there (some value) = true

-- `assert!(headers.contains_key(name))`
abbrev has_header : Parsed → Str → Bool
has_header (parsed method m) name = is_there (get name m)
has_header _ name = false

abbrev is_err : Parsed → Bool
is_err refused = true
is_err _ = false

-- no panic
abbrev returns : Parsed → Bool
returns out_of_bounds = false
returns _ = true

abbrev test_parse_ssdp_msearch_ssdp_all : (Bytes → Option Request) → Bool
test_parse_ssdp_msearch_ssdp_all parse =
    method_is
      (parse_ssdp parse (
        codes
          "M-SEARCH * HTTP/1.1\r\nHOST: 239.255.255.250:1900\r\nMAN: \"ssdp:discover\"\r\nMX: 3\r\nST: ssdp:all\r\n\r\n"))
      (codes "M-SEARCH")
    && header_is
        (parse_ssdp parse (
          codes
            "M-SEARCH * HTTP/1.1\r\nHOST: 239.255.255.250:1900\r\nMAN: \"ssdp:discover\"\r\nMX: 3\r\nST: ssdp:all\r\n\r\n"))
        (codes "ST") (codes "ssdp:all")

abbrev test_parse_ssdp_msearch_mediaserver : (Bytes → Option Request) → Bool
test_parse_ssdp_msearch_mediaserver parse =
    method_is
      (parse_ssdp parse (
        codes
          "M-SEARCH * HTTP/1.1\r\nHOST: 239.255.255.250:1900\r\nMAN: \"ssdp:discover\"\r\nMX: 3\r\nST: urn:schemas-upnp-org:device:MediaServer:1\r\n\r\n"))
      (codes "M-SEARCH")
    && header_is
        (parse_ssdp parse (
          codes
            "M-SEARCH * HTTP/1.1\r\nHOST: 239.255.255.250:1900\r\nMAN: \"ssdp:discover\"\r\nMX: 3\r\nST: urn:schemas-upnp-org:device:MediaServer:1\r\n\r\n"))
        (codes "ST") (codes "urn:schemas-upnp-org:device:MediaServer:1")

abbrev test_parse_ssdp_msearch_rootdevice : (Bytes → Option Request) → Bool
test_parse_ssdp_msearch_rootdevice parse =
    method_is
      (parse_ssdp parse (
        codes
          "M-SEARCH * HTTP/1.1\r\nHOST: 239.255.255.250:1900\r\nMAN: \"ssdp:discover\"\r\nMX: 3\r\nST: upnp:rootdevice\r\n\r\n"))
      (codes "M-SEARCH")
    && header_is
        (parse_ssdp parse (
          codes
            "M-SEARCH * HTTP/1.1\r\nHOST: 239.255.255.250:1900\r\nMAN: \"ssdp:discover\"\r\nMX: 3\r\nST: upnp:rootdevice\r\n\r\n"))
        (codes "ST") (codes "upnp:rootdevice")

abbrev test_parse_ssdp_extracts_man_header : (Bytes → Option Request) → Bool
test_parse_ssdp_extracts_man_header parse =
    header_is
      (parse_ssdp parse (
        codes
          "M-SEARCH * HTTP/1.1\r\nHOST: 239.255.255.250:1900\r\nMAN: \"ssdp:discover\"\r\nST: ssdp:all\r\n\r\n"))
      (codes "MAN") (codes "\"ssdp:discover\"")

abbrev test_parse_ssdp_extracts_host_header : (Bytes → Option Request) → Bool
test_parse_ssdp_extracts_host_header parse =
    header_is
      (parse_ssdp parse
        (codes "M-SEARCH * HTTP/1.1\r\nHOST: 239.255.255.250:1900\r\nST: ssdp:all\r\n\r\n"))
      (codes "HOST") (codes "239.255.255.250:1900")

abbrev test_parse_ssdp_extracts_mx_header : (Bytes → Option Request) → Bool
test_parse_ssdp_extracts_mx_header parse =
    header_is
      (parse_ssdp parse (
        codes "M-SEARCH * HTTP/1.1\r\nHOST: 239.255.255.250:1900\r\nMX: 5\r\nST: ssdp:all\r\n\r\n"))
      (codes "MX") (codes "5")

abbrev test_parse_ssdp_normalizes_headers_to_uppercase : (Bytes → Option Request) → Bool
test_parse_ssdp_normalizes_headers_to_uppercase parse =
    has_header
      (parse_ssdp parse (
        codes
          "M-SEARCH * HTTP/1.1\r\nhost: 239.255.255.250:1900\r\nman: \"ssdp:discover\"\r\nst: ssdp:all\r\n\r\n"))
      (codes "HOST")
    && has_header
        (parse_ssdp parse (
          codes
            "M-SEARCH * HTTP/1.1\r\nhost: 239.255.255.250:1900\r\nman: \"ssdp:discover\"\r\nst: ssdp:all\r\n\r\n"))
        (codes "MAN")
    && has_header
        (parse_ssdp parse (
          codes
            "M-SEARCH * HTTP/1.1\r\nhost: 239.255.255.250:1900\r\nman: \"ssdp:discover\"\r\nst: ssdp:all\r\n\r\n"))
        (codes "ST")

abbrev test_parse_ssdp_mixed_case_headers : (Bytes → Option Request) → Bool
test_parse_ssdp_mixed_case_headers parse =
    has_header
      (parse_ssdp parse (
        codes
          "M-SEARCH * HTTP/1.1\r\nHost: 239.255.255.250:1900\r\nMan: \"ssdp:discover\"\r\nSt: ssdp:all\r\n\r\n"))
      (codes "HOST")
    && has_header
        (parse_ssdp parse (
          codes
            "M-SEARCH * HTTP/1.1\r\nHost: 239.255.255.250:1900\r\nMan: \"ssdp:discover\"\r\nSt: ssdp:all\r\n\r\n"))
        (codes "MAN")
    && has_header
        (parse_ssdp parse (
          codes
            "M-SEARCH * HTTP/1.1\r\nHost: 239.255.255.250:1900\r\nMan: \"ssdp:discover\"\r\nSt: ssdp:all\r\n\r\n"))
        (codes "ST")

abbrev test_parse_ssdp_empty_buffer : (Bytes → Option Request) → Bool
test_parse_ssdp_empty_buffer parse = is_err (parse_ssdp parse (codes ""))

abbrev test_parse_ssdp_garbage_data : (Bytes → Option Request) → Bool
test_parse_ssdp_garbage_data parse =
    is_err (parse_ssdp parse (codes "not a valid http request at all" ++ (0x00 ∷ 0xFF ∷ 0xFE ∷ [])))

abbrev test_parse_ssdp_incomplete_request : (Bytes → Option Request) → Bool
test_parse_ssdp_incomplete_request parse =
    returns (parse_ssdp parse (codes "M-SEARCH * HTTP/1.1\r\n"))

abbrev filled : List (Str × Str) → List Header
filled [] = []
filled ((name, value) ∷ hs) = record { name = name; value = value } ∷ filled hs

-- an M-SEARCH with these headers; the other slots of the array stay empty
abbrev request : List (Str × Str) → Option Request
request hs = some (record {
  method = some (codes "M-SEARCH");
  headers = filled hs ++ replicate 12 (record { name = []; value = [] });
})

-- the packets of the tests, as they are parsed
record IsParser (parse : Bytes → Option Request) : Type 0 where
  search_all :
      parse (
        codes
          "M-SEARCH * HTTP/1.1\r\nHOST: 239.255.255.250:1900\r\nMAN: \"ssdp:discover\"\r\nMX: 3\r\nST: ssdp:all\r\n\r\n")
      ≡ request (
          (codes "HOST", codes "239.255.255.250:1900")
          ∷ (codes "MAN", codes "\"ssdp:discover\"")
          ∷ (codes "MX", codes "3")
          ∷ (codes "ST", codes "ssdp:all")
          ∷ [])
  search_media_server :
      parse (
        codes
          "M-SEARCH * HTTP/1.1\r\nHOST: 239.255.255.250:1900\r\nMAN: \"ssdp:discover\"\r\nMX: 3\r\nST: urn:schemas-upnp-org:device:MediaServer:1\r\n\r\n")
      ≡ request (
          (codes "HOST", codes "239.255.255.250:1900")
          ∷ (codes "MAN", codes "\"ssdp:discover\"")
          ∷ (codes "MX", codes "3")
          ∷ (codes "ST", codes "urn:schemas-upnp-org:device:MediaServer:1")
          ∷ [])
  search_root_device :
      parse (
        codes
          "M-SEARCH * HTTP/1.1\r\nHOST: 239.255.255.250:1900\r\nMAN: \"ssdp:discover\"\r\nMX: 3\r\nST: upnp:rootdevice\r\n\r\n")
      ≡ request (
          (codes "HOST", codes "239.255.255.250:1900")
          ∷ (codes "MAN", codes "\"ssdp:discover\"")
          ∷ (codes "MX", codes "3")
          ∷ (codes "ST", codes "upnp:rootdevice")
          ∷ [])
  no_mx :
      parse (
        codes
          "M-SEARCH * HTTP/1.1\r\nHOST: 239.255.255.250:1900\r\nMAN: \"ssdp:discover\"\r\nST: ssdp:all\r\n\r\n")
      ≡ request (
          (codes "HOST", codes "239.255.255.250:1900")
          ∷ (codes "MAN", codes "\"ssdp:discover\"")
          ∷ (codes "ST", codes "ssdp:all")
          ∷ [])
  host_only :
      parse (codes "M-SEARCH * HTTP/1.1\r\nHOST: 239.255.255.250:1900\r\nST: ssdp:all\r\n\r\n")
      ≡ request ((codes "HOST", codes "239.255.255.250:1900") ∷ (codes "ST", codes "ssdp:all") ∷ [])
  with_mx :
      parse
        (codes "M-SEARCH * HTTP/1.1\r\nHOST: 239.255.255.250:1900\r\nMX: 5\r\nST: ssdp:all\r\n\r\n")
      ≡ request (
          (codes "HOST", codes "239.255.255.250:1900")
          ∷ (codes "MX", codes "5")
          ∷ (codes "ST", codes "ssdp:all")
          ∷ [])
  lower_case :
      parse (
        codes
          "M-SEARCH * HTTP/1.1\r\nhost: 239.255.255.250:1900\r\nman: \"ssdp:discover\"\r\nst: ssdp:all\r\n\r\n")
      ≡ request (
          (codes "host", codes "239.255.255.250:1900")
          ∷ (codes "man", codes "\"ssdp:discover\"")
          ∷ (codes "st", codes "ssdp:all")
          ∷ [])
  mixed_case :
      parse (
        codes
          "M-SEARCH * HTTP/1.1\r\nHost: 239.255.255.250:1900\r\nMan: \"ssdp:discover\"\r\nSt: ssdp:all\r\n\r\n")
      ≡ request (
          (codes "Host", codes "239.255.255.250:1900")
          ∷ (codes "Man", codes "\"ssdp:discover\"")
          ∷ (codes "St", codes "ssdp:all")
          ∷ [])
  incomplete : parse (codes "M-SEARCH * HTTP/1.1\r\n") ≡ request ([])
  empty : parse [] ≡ none
  garbage : parse (codes "not a valid http request at all" ++ (0x00 ∷ 0xFF ∷ 0xFE ∷ [])) ≡ none

module _ (parse : Bytes → Option Request) (is : IsParser parse) where
  test_parse_ssdp_msearch_ssdp_all_passes : test_parse_ssdp_msearch_ssdp_all parse ≡ true
  unfolding parse_ssdp collect get insert to_uppercase equal from_utf8_lossy
  test_parse_ssdp_msearch_ssdp_all_passes = rw is.search_all

  test_parse_ssdp_msearch_mediaserver_passes : test_parse_ssdp_msearch_mediaserver parse ≡ true
  unfolding parse_ssdp collect get insert to_uppercase equal from_utf8_lossy
  test_parse_ssdp_msearch_mediaserver_passes = rw is.search_media_server

  test_parse_ssdp_msearch_rootdevice_passes : test_parse_ssdp_msearch_rootdevice parse ≡ true
  unfolding parse_ssdp collect get insert to_uppercase equal from_utf8_lossy
  test_parse_ssdp_msearch_rootdevice_passes = rw is.search_root_device

  test_parse_ssdp_extracts_man_header_passes : test_parse_ssdp_extracts_man_header parse ≡ true
  unfolding parse_ssdp collect get insert to_uppercase equal from_utf8_lossy
  test_parse_ssdp_extracts_man_header_passes = rw is.no_mx

  test_parse_ssdp_extracts_host_header_passes : test_parse_ssdp_extracts_host_header parse ≡ true
  unfolding parse_ssdp collect get insert to_uppercase equal from_utf8_lossy
  test_parse_ssdp_extracts_host_header_passes = rw is.host_only

  test_parse_ssdp_extracts_mx_header_passes : test_parse_ssdp_extracts_mx_header parse ≡ true
  unfolding parse_ssdp collect get insert to_uppercase equal from_utf8_lossy
  test_parse_ssdp_extracts_mx_header_passes = rw is.with_mx

  test_parse_ssdp_normalizes_headers_to_uppercase_passes :
      test_parse_ssdp_normalizes_headers_to_uppercase parse ≡ true
  unfolding parse_ssdp collect get insert to_uppercase equal from_utf8_lossy
  test_parse_ssdp_normalizes_headers_to_uppercase_passes = rw is.lower_case

  test_parse_ssdp_mixed_case_headers_passes : test_parse_ssdp_mixed_case_headers parse ≡ true
  unfolding parse_ssdp collect get insert to_uppercase equal from_utf8_lossy
  test_parse_ssdp_mixed_case_headers_passes = rw is.mixed_case

  test_parse_ssdp_empty_buffer_passes : test_parse_ssdp_empty_buffer parse ≡ true
  unfolding parse_ssdp collect get insert to_uppercase equal from_utf8_lossy
  test_parse_ssdp_empty_buffer_passes = rw is.empty

  test_parse_ssdp_garbage_data_passes : test_parse_ssdp_garbage_data parse ≡ true
  unfolding parse_ssdp collect get insert to_uppercase equal from_utf8_lossy
  test_parse_ssdp_garbage_data_passes = rw is.garbage

  test_parse_ssdp_incomplete_request_passes : test_parse_ssdp_incomplete_request parse ≡ true
  unfolding parse_ssdp collect get insert to_uppercase equal from_utf8_lossy
  test_parse_ssdp_incomplete_request_passes = rw is.incomplete
