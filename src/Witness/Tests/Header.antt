-- ===== src/Witness/Tests/Header.antt =====
-- tcp_proxy.rs: the source's own tests of `should_rewrite_content` and `update_content_length`.
use dlna_proxy.Common.{Bool, true, not, ◌&&◌, ◌≡◌, refl}
use dlna_proxy.Text.{codes, contains}
use dlna_proxy.Proxy.Header.{should_rewrite_content, update_content_length}

abbrev test_should_rewrite_text_plain : Bool
test_should_rewrite_text_plain =
    should_rewrite_content (codes "HTTP/1.1 200 OK\r\nContent-Type: text/plain\r\n\r\n")

abbrev test_should_rewrite_text_xml : Bool
test_should_rewrite_text_xml =
    should_rewrite_content (codes "HTTP/1.1 200 OK\r\nContent-Type: text/xml\r\n\r\n")

abbrev test_should_rewrite_application_xml : Bool
test_should_rewrite_application_xml =
    should_rewrite_content (codes "HTTP/1.1 200 OK\r\nContent-Type: application/xml\r\n\r\n")

abbrev test_should_rewrite_json : Bool
test_should_rewrite_json =
    should_rewrite_content (codes "HTTP/1.1 200 OK\r\nContent-Type: application/json\r\n\r\n")

abbrev test_should_rewrite_html : Bool
test_should_rewrite_html =
    should_rewrite_content (codes "HTTP/1.1 200 OK\r\nContent-Type: text/html\r\n\r\n")

abbrev test_should_rewrite_text_html_charset : Bool
test_should_rewrite_text_html_charset =
    should_rewrite_content
      (codes "HTTP/1.1 200 OK\r\nContent-Type: text/html; charset=utf-8\r\n\r\n")

abbrev test_should_not_rewrite_video : Bool
test_should_not_rewrite_video =
    not (should_rewrite_content (codes "HTTP/1.1 200 OK\r\nContent-Type: video/mp4\r\n\r\n"))

abbrev test_should_not_rewrite_audio : Bool
test_should_not_rewrite_audio =
    not (should_rewrite_content (codes "HTTP/1.1 200 OK\r\nContent-Type: audio/mpeg\r\n\r\n"))

abbrev test_should_not_rewrite_image : Bool
test_should_not_rewrite_image =
    not (should_rewrite_content (codes "HTTP/1.1 200 OK\r\nContent-Type: image/jpeg\r\n\r\n"))

abbrev test_should_not_rewrite_octet_stream : Bool
test_should_not_rewrite_octet_stream = not (
    should_rewrite_content
      (codes "HTTP/1.1 200 OK\r\nContent-Type: application/octet-stream\r\n\r\n"))

abbrev test_should_not_rewrite_missing_content_type : Bool
test_should_not_rewrite_missing_content_type =
    not (should_rewrite_content (codes "HTTP/1.1 200 OK\r\nServer: Test\r\n\r\n"))

abbrev test_should_rewrite_case_insensitive : Bool
test_should_rewrite_case_insensitive =
    should_rewrite_content (codes "HTTP/1.1 200 OK\r\nCONTENT-TYPE: TEXT/XML\r\n\r\n")

abbrev test_update_content_length_basic : Bool
test_update_content_length_basic =
    contains (update_content_length (codes "HTTP/1.1 200 OK\r\nContent-Length: 100\r\n\r\n") 200)
      (codes "Content-Length: 200")
    && not (
        contains
          (update_content_length (codes "HTTP/1.1 200 OK\r\nContent-Length: 100\r\n\r\n") 200)
          (codes "Content-Length: 100"))

abbrev test_update_content_length_case_insensitive : Bool
test_update_content_length_case_insensitive =
    contains (update_content_length (codes "HTTP/1.1 200 OK\r\ncontent-length: 100\r\n\r\n") 50)
      (codes "Content-Length: 50")

abbrev test_update_content_length_preserves_other_headers : Bool
test_update_content_length_preserves_other_headers =
    contains
      (update_content_length
        (codes
          "HTTP/1.1 200 OK\r\nServer: Test\r\nContent-Length: 100\r\nConnection: close\r\n\r\n")
        150)
      (codes "Server: Test")
    && contains
        (update_content_length
          (codes
            "HTTP/1.1 200 OK\r\nServer: Test\r\nContent-Length: 100\r\nConnection: close\r\n\r\n")
          150)
        (codes "Content-Length: 150")
    && contains
        (update_content_length
          (codes
            "HTTP/1.1 200 OK\r\nServer: Test\r\nContent-Length: 100\r\nConnection: close\r\n\r\n")
          150)
        (codes "Connection: close")

abbrev test_update_content_length_no_header : Bool
test_update_content_length_no_header = not (
    contains (update_content_length (codes "HTTP/1.1 200 OK\r\nServer: Test\r\n\r\n") 100)
      (codes "Content-Length:"))

-- All of them pass.
header_tests :
    (test_should_rewrite_text_plain && test_should_rewrite_text_xml
      && test_should_rewrite_application_xml && test_should_rewrite_json && test_should_rewrite_html
      && test_should_rewrite_text_html_charset && test_should_not_rewrite_video
      && test_should_not_rewrite_audio && test_should_not_rewrite_image
      && test_should_not_rewrite_octet_stream && test_should_not_rewrite_missing_content_type
      && test_should_rewrite_case_insensitive && test_update_content_length_basic
      && test_update_content_length_case_insensitive
      && test_update_content_length_preserves_other_headers && test_update_content_length_no_header)
    ≡ true
unfolding should_rewrite_content update_content_length contains
header_tests = refl
