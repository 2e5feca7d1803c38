-- ===== src/Witness/Proxy.antt =====
-- tcp_proxy.rs at concrete streams and connections.
mod Clients
use dlna_proxy.Common.{
  ℕ, ◌+◌, ◌≤◌, ◌<◌, false, some, List, [], ◌∷◌, ◌++◌, ◌⊎◌, inl, inr, ◌≡◌, ◌≢◌, refl, arith,
}
use dlna_proxy.Text.{Str, codes, cr, lf}
use dlna_proxy.Net.{Conn, eof, reset, done, no_fuel}
use dlna_proxy.Net.Laws.{conn}
use dlna_proxy.Proxy.Header.{note_line, should_rewrite_content}
use dlna_proxy.Proxy.Chunk.{
  forward, parse_chunk_size, pass_through_chunked, read_chunked_body, write_chunked_body,
}
use dlna_proxy.Proxy.Chunk.Forward.{forwarded_end, forward_stream}
use dlna_proxy.Proxy.Chunk.Body.{
  Chunk, IsChunk, Last, IsLast, body_wire, pass_through_chunked-body_wire,
  read_chunked_body-body_wire,
}
use dlna_proxy.Proxy.Chunk.Coding.{
  read_chunked_body-write_chunked_body, read_chunked_body-write_chunked_body_nil,
}
use dlna_proxy.Proxy.Response.{proxy_response_with_rewrite, passes}
use dlna_proxy.Proxy.Response.Ends.{proxy_response_with_rewrite-ne-no_fuel}
use dlna_proxy.Proxy.Response.Message.{
  Message, fixed, chunked, IsMessage, closed, stream, delivered_stream,
}
use dlna_proxy.Proxy.Response.Stream.{proxy_response_with_rewrite-stream}
use dlna_proxy.Proxy.{handle_conn}
use dlna_proxy.Proxy.Relay.{handle_conn-stream}
use dlna_proxy.Proxy.Listen.{
  accepting, acquiring, connecting, Step, accept_client, acquire, connect_origin, Reach, start,
  next, max_concurrent_connections,
}
use dlna_proxy.Proxy.Listen.Permits.{acquiring_progress}

abbrev origin : Str
origin = codes "http://10.0.0.9:80"

abbrev proxy : Str
proxy = codes "http://10.0.0.1:8080"

abbrev five : Chunk
five = record { size_text = codes "5;x=1\r"; payload = codes "hello"; close0 = cr; close1 = lf }

abbrev two : Chunk
two = record { size_text = codes "2\r"; payload = codes "ok"; close0 = cr; close1 = lf }

abbrev last : Last
last = record { size_text = codes "0\r"; trailer = cr ∷ [] }

five-IsChunk : IsChunk five
unfolding parse_chunk_size
five-IsChunk = record { one_line = ground arith; size_is = refl; not_empty = omega arith }

two-IsChunk : IsChunk two
unfolding parse_chunk_size
two-IsChunk = record { one_line = ground arith; size_is = refl; not_empty = omega arith }

last-IsLast : IsLast last
unfolding parse_chunk_size
last-IsLast = record { one_line = ground arith; size_is = refl; trailer_line = ground arith }

-- a description that names the origin
abbrev pub description : Message
description = record {
  headers =
      codes "HTTP/1.1 200 OK\r"
      ∷ codes "Content-Type: text/xml\r"
      ∷ codes "Content-Length: 20\r"
      ∷ [];
  blank = codes "\r";
  body = fixed (codes "http://10.0.0.9:80/d");
}

-- a picture in chunks
abbrev picture : Message
picture = record {
  headers =
      codes "HTTP/1.1 200 OK\r"
      ∷ codes "Content-Type: image/png\r"
      ∷ codes "Transfer-Encoding: chunked\r"
      ∷ [];
  blank = codes "\r";
  body = chunked (five ∷ two ∷ []) last;
}

pub description-IsMessage : IsMessage description
unfolding note_line
description-IsMessage = record {
  header_lines = (ground arith, (ground arith, (ground arith, tt)));
  blank_line = inr refl;
  announced = (refl, refl);
}

picture-IsMessage : IsMessage picture
unfolding note_line passes should_rewrite_content
picture-IsMessage = record {
  header_lines = (ground arith, (ground arith, (ground arith, tt)));
  blank_line = inr refl;
  announced = (refl, (five-IsChunk, (two-IsChunk, tt)), last-IsLast, inl refl);
}

proxy_response_with_rewrite-stream_example :
    (rs' : List ℕ) × (proxy_response_with_rewrite origin proxy
        (conn (stream (description ∷ picture ∷ []) closed) eof (3 ∷ 0 ∷ []) [])
      ≡ (
        done tt,
        conn [] eof rs' (delivered_stream origin proxy (description ∷ picture ∷ []) closed),
      ))
proxy_response_with_rewrite-stream_example =
    proxy_response_with_rewrite-stream origin proxy (description ∷ picture ∷ []) closed (3 ∷ 0 ∷ [])
      (description-IsMessage, (picture-IsMessage, tt)) tt

abbrev broken : Conn
broken = record {
  input = codes "HTTP/1.1 200 OK\r\nContent-Length: 9\r\n\r\nabc";
  ending = reset;
  reads = 1 ∷ [];
  sent = [];
  room = some 40;
}

proxy_response_with_rewrite-ne-no_fuel_example :
    (proxy_response_with_rewrite origin proxy broken).0 ≢ no_fuel
proxy_response_with_rewrite-ne-no_fuel_example =
    proxy_response_with_rewrite-ne-no_fuel origin proxy broken

pass_through_chunked-body_wire_example :
    (rs' : List ℕ) × (pass_through_chunked 3
        (conn (body_wire (five ∷ two ∷ []) last (codes "HTTP")) reset (1 ∷ []) [])
      ≡ (done tt, conn (codes "HTTP") reset rs' ([] ++ body_wire (five ∷ two ∷ []) last [])))
pass_through_chunked-body_wire_example =
    pass_through_chunked-body_wire (five ∷ two ∷ []) last 3 (codes "HTTP") reset (1 ∷ []) []
      (omega arith) (five-IsChunk, (two-IsChunk, tt)) last-IsLast

read_chunked_body-body_wire_example :
    read_chunked_body 3 100 [] (conn (body_wire (five ∷ two ∷ []) last (codes "HTTP")) eof [] [])
    ≡ (done (codes "hellook"), conn (codes "HTTP") eof [] [])
read_chunked_body-body_wire_example =
    read_chunked_body-body_wire (five ∷ two ∷ []) last 3 100 [] (codes "HTTP") eof [] []
      (omega arith) (omega arith) (omega arith) (five-IsChunk, (two-IsChunk, tt)) last-IsLast

read_chunked_body-write_chunked_body_example :
    read_chunked_body 2 100 [] (
      conn
        ((write_chunked_body (codes "hello") (conn [] eof [] [])).1.sent ++ codes "HTTP")
        eof
        []
        [])
    ≡ (done (codes "hello"), conn (codes "HTTP") eof [] [])
read_chunked_body-write_chunked_body_example =
    read_chunked_body-write_chunked_body (codes "hello") (codes "HTTP") 100 eof [] [] (omega arith)
      (omega arith) (omega arith)

read_chunked_body-write_chunked_body_nil_example :
    read_chunked_body 1 100 []
      (conn ((write_chunked_body [] (conn [] eof [] [])).1.sent ++ codes "HTTP") eof [] [])
    ≡ (done [], conn (codes "0\r\n\r\nHTTP") eof [] [])
read_chunked_body-write_chunked_body_nil_example =
    read_chunked_body-write_chunked_body_nil (codes "HTTP") 100 eof [] [] (omega arith)

forward_stream_example :
    (rs' : List ℕ) × (((9 ≤ 5)
        × (forward 9 9 (conn (codes "abcde") reset (0 ∷ 7 ∷ []) (codes "x"))
            ≡ (done tt, conn [] reset rs' (codes "xabcde"))))
      ⊎ ((5 < 9)
          × (forward 9 9 (conn (codes "abcde") reset (0 ∷ 7 ∷ []) (codes "x"))
              ≡ (forwarded_end reset, conn [] reset rs' (codes "xabcde")))))
forward_stream_example =
    forward_stream 9 9 (codes "abcde") reset (0 ∷ 7 ∷ []) (codes "x") (omega arith)

one_served : Reach (record { phase = accepting; free = 99; closed = false; active = 1 })
one_served =
    next (next (next start (accept_client refl)) (acquire refl refl (omega arith)))
      (connect_origin refl)

second_client : Reach (record { phase = acquiring; free = 99; closed = false; active = 1 })
second_client = next one_served (accept_client refl)

acquiring_progress_example :
    Step
      (record { phase = acquiring; free = 99; closed = false; active = 1 })
      (record { phase = connecting; free = 98; closed = false; active = 1 })
    ⊎ ((1 ≡ max_concurrent_connections)
        × Step
            (record { phase = acquiring; free = 99; closed = false; active = 1 })
            (record { phase = acquiring; free = 100; closed = false; active = 0 }))
acquiring_progress_example = acquiring_progress second_client refl

handle_conn-stream_example :
    ((handle_conn origin proxy
        (conn (codes "GET / HTTP/1.1\r\n\r\n") eof [] [])
        (conn (stream (description ∷ []) closed) eof (5 ∷ []) [])).0.sent
      ≡ codes "GET / HTTP/1.1\r\n\r\n")
    × ((handle_conn origin proxy
          (conn (codes "GET / HTTP/1.1\r\n\r\n") eof [] [])
          (conn (stream (description ∷ []) closed) eof (5 ∷ []) [])).1.sent
        ≡ delivered_stream origin proxy (description ∷ []) closed)
handle_conn-stream_example =
    handle_conn-stream origin proxy (codes "GET / HTTP/1.1\r\n\r\n") (description ∷ []) closed []
      (5 ∷ []) (description-IsMessage, tt) tt
