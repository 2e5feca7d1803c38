-- ===== src/Witness/Task.antt =====
-- tcp_proxy.rs: the response task with a client that stops and with a stream that is cut differently.
use dlna_proxy.Common.{
  refl, List, arith, inr, true, false, ◌<◌, ◌≤◌, none, some, [], ◌∷◌, ◌++◌, ◌⊎◌, ◌≡◌, take, length,
}
use dlna_proxy.Text.{Str, Bytes, codes, cr}
use dlna_proxy.Net.{Conn, eof, reset, end_error, failed, broken_pipe}
use dlna_proxy.Net.Laws.{conn}
use dlna_proxy.Proxy.Header.{no_head, note_line}
use dlna_proxy.Proxy.Chunk.Forward.{forwarded_end}
use dlna_proxy.Proxy.Response.Headers.{header_wire, head_of}
use dlna_proxy.Proxy.Response.Message.{Message, fixed, IsMessage, messages_wire, delivered_all}
use dlna_proxy.Proxy.Response.Broken.{IsSized, proxy_response_with_rewrite_broken}
use dlna_proxy.Proxy.Response.{proxy_response_with_rewrite, passes}
use dlna_proxy.Proxy.Response.Io.Cut.{conn_with}
use dlna_proxy.Proxy.Response.Io.Room.{proxy_response_with_rewrite-room}
use dlna_proxy.Proxy.Response.Io.Reads.{proxy_response_with_rewrite-reads}

abbrev origin : Str
origin = codes "http://10.0.0.9:80"

abbrev proxy : Str
proxy = codes "http://10.0.0.1:8080"

-- a video of five bytes, then the start of a text response
abbrev wire : Bytes
wire =
    codes "HTTP/1.1 200 OK\r\nContent-Type: video/mp4\r\nContent-Length: 5\r\n\r\nvideo"
    ++ codes "HTTP/1.1 200 OK\r\nContent-Type: text/xml\r\nContent-Length: 9\r\n\r\n"

proxy_response_with_rewrite-room_example :
    let whole = proxy_response_with_rewrite origin proxy (conn_with wire eof (2 ∷ []) [] none) in
    let bounded =
      proxy_response_with_rewrite origin proxy (conn_with wire eof (2 ∷ []) [] (some 40)) in
    ((length whole.1.sent ≤ 40) × (bounded.0 ≡ whole.0) × (bounded.1.sent ≡ whole.1.sent))
    ⊎ ((40 < length whole.1.sent)
        × (bounded.0 ≡ failed broken_pipe)
        × (bounded.1.sent ≡ take 40 whole.1.sent))
proxy_response_with_rewrite-room_example =
    proxy_response_with_rewrite-room origin proxy wire eof (2 ∷ []) 40

proxy_response_with_rewrite-reads_example :
    let r =
      proxy_response_with_rewrite origin proxy (conn_with wire eof (2 ∷ 1 ∷ []) [] (some 70)) in
    let r' = proxy_response_with_rewrite origin proxy (conn_with wire eof [] [] (some 70)) in
    (r.0 ≡ r'.0) × (r.1.sent ≡ r'.1.sent)
proxy_response_with_rewrite-reads_example =
    proxy_response_with_rewrite-reads origin proxy wire eof (2 ∷ 1 ∷ []) [] (some 70)

abbrev fields : List Bytes
fields =
    codes "HTTP/1.1 200 OK\r" ∷ codes "Content-Type: text/xml\r" ∷ codes "Content-Length: 4\r" ∷ []

abbrev empty_device : Message
empty_device = record { headers = fields; blank = cr ∷ []; body = fixed (codes "<a/>") }

empty_device-IsMessage : IsMessage empty_device
unfolding note_line
empty_device-IsMessage = record {
  header_lines = (ground arith, (ground arith, (ground arith, tt)));
  blank_line = inr refl;
  announced = (refl, refl);
}

four : IsSized (head_of no_head fields (cr ∷ [])) 4
unfolding note_line
four = record { not_chunked = refl; announced = refl }

proxy_response_with_rewrite_broken_example :
    let r = proxy_response_with_rewrite origin proxy (
      conn
        (messages_wire (empty_device ∷ []) (header_wire fields (cr ∷ []) (codes "<a")))
        reset
        (1 ∷ [])
        []) in
    ((passes (head_of no_head fields (cr ∷ [])) ≡ true)
      × (r.0 ≡ forwarded_end reset)
      × (r.1.sent
          ≡ delivered_all origin proxy (empty_device ∷ [])
            ++ header_wire fields (cr ∷ []) (codes "<a")))
    ⊎ ((passes (head_of no_head fields (cr ∷ [])) ≡ false)
        × (r.0 ≡ failed (end_error reset))
        × (r.1.sent ≡ delivered_all origin proxy (empty_device ∷ [])))
proxy_response_with_rewrite_broken_example =
    proxy_response_with_rewrite_broken origin proxy (empty_device ∷ []) fields (cr ∷ [])
      (codes "<a") 4 reset (1 ∷ []) (empty_device-IsMessage, tt) empty_device-IsMessage.header_lines
      (inr refl) four (omega arith)

-- a byte in a chunk, and a size that wraps the sum of the sizes round
abbrev hostile : Conn
hostile =
    conn
      (codes
        "HTTP/1.1 200 OK\r\nContent-Type: text/xml\r\nTransfer-Encoding: chunked\r\n\r\n1\r\na\r\nffffffffffffffff\r\n")
      eof [] []
