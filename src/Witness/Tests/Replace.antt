-- ===== src/Witness/Tests/Replace.antt =====
-- tcp_proxy.rs: the source's own tests of the replacement of URLs.
use dlna_proxy.Common.{Bool, true, not, ◌&&◌, ◌≡◌, refl}
use dlna_proxy.Text.{Str, codes, contains, equal}
use dlna_proxy.Text.Replace.{replace}

-- `body.replace(origin, proxy)`
abbrev replaced : Str → Str
replaced body = replace body (codes "http://192.168.1.41:55555") (codes "http://192.168.1.52:8100")

abbrev xml_body : Str
xml_body =
    codes
      "<?xml version=\"1.0\"?>\n<root xmlns=\"urn:schemas-upnp-org:device-1-0\">\n  <URLBase>http://192.168.1.41:55555/</URLBase>\n  <device>\n    <presentationURL>http://192.168.1.41:55555/index.html</presentationURL>\n  </device>\n</root>"

abbrev test_url_replacement_basic : Bool
test_url_replacement_basic =
    equal (replaced (codes "Location: http://192.168.1.41:55555/desc.xml"))
      (codes "Location: http://192.168.1.52:8100/desc.xml")

abbrev test_url_replacement_multiple : Bool
test_url_replacement_multiple =
    contains
      (replaced
        (codes "<url>http://192.168.1.41:55555/a</url>\n<url>http://192.168.1.41:55555/b</url>"))
      (codes "http://192.168.1.52:8100/a")
    && contains
        (replaced
          (codes "<url>http://192.168.1.41:55555/a</url>\n<url>http://192.168.1.41:55555/b</url>"))
        (codes "http://192.168.1.52:8100/b")
    && not (
        contains
          (replaced (
            codes "<url>http://192.168.1.41:55555/a</url>\n<url>http://192.168.1.41:55555/b</url>"))
          (codes "192.168.1.41"))

abbrev test_url_replacement_xml_body : Bool
test_url_replacement_xml_body =
    contains (replaced xml_body) (codes "http://192.168.1.52:8100/")
    && contains (replaced xml_body) (codes "http://192.168.1.52:8100/index.html")
    && not (contains (replaced xml_body) (codes "192.168.1.41:55555"))

abbrev test_url_replacement_no_match : Bool
test_url_replacement_no_match =
    equal (replaced (codes "Some content without URLs")) (codes "Some content without URLs")

-- All of them pass.
replacement_tests :
    (test_url_replacement_basic && test_url_replacement_multiple && test_url_replacement_xml_body
      && test_url_replacement_no_match)
    ≡ true
unfolding replace equal contains
replacement_tests = refl
