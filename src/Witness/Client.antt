-- ===== src/Witness/Client.antt =====
-- tcp_proxy.rs, from one end to the other.
use dlna_proxy.Common.{
  length, ℕ, ◌<◌, ◌-◌, ◌≤◌, ◌^◌, true, false, none, some, List, [], ◌∷◌, ◌++◌, ◌≡◌, refl, arith,
  All,
}
use dlna_proxy.Text.{lf, Bytes, Str, codes, starts_with}
use dlna_proxy.Text.{cr}
use dlna_proxy.Text.Matches.{Replaced, finish, keep, swap}
use dlna_proxy.Text.Replace.{replace}
use dlna_proxy.Text.Utf8.{as_bytes, from_utf8_lossy}
use dlna_proxy.Net.{read_until_lf, read_exact, eof, done, panicked}
use dlna_proxy.Net.Laws.{conn}
use dlna_proxy.Proxy.Header.{Head, no_head, note_line, should_rewrite_content}
use dlna_proxy.Proxy.Chunk.{parse_chunk_size, exceeds, capacity_overflow, read_chunked_body}
use dlna_proxy.Proxy.Chunk.Limit.{read_chunked_body-limit, read_chunked_body_overflow}
use dlna_proxy.Proxy.Response.{
  passes, read_headers, rewrite_body, updated_headers, proxy_response_with_rewrite,
}
use dlna_proxy.Proxy.Response.Block.{IsField, text_head}
use dlna_proxy.Proxy.Response.Client.{read_headers-updated_headers}
use dlna_proxy.Text.Utf8.Encoding.{IsScalar}
use dlna_proxy.Text.Number.{usize_max}
use dlna_proxy.Proxy.Response.{max_rewritable_body_size}
use dlna_proxy.Proxy.Chunk.Body.{payloads, Chunk, IsChunk, Last, IsLast}
use dlna_proxy.Proxy.Response.Rewrite.{chunked_response, proxy_response_with_rewrite-chunked_client}
use dlna_proxy.Proxy.Response.Message.{closed, stream}
use dlna_proxy.Proxy.Response.Rewrite.{
  text_response, rewrite_body-Replaced, proxy_response_with_rewrite-client,
}

abbrev origin : Str
origin = codes "http://10.0.0.9:80"

abbrev proxy : Str
proxy = codes "http://10.0.0.1:8080"

abbrev fields : List Str
fields = codes "HTTP/1.1 200 OK" ∷ codes "Content-Type: text/xml" ∷ codes "content-length:28" ∷ []

-- "/é", a character of three bytes and one of four
abbrev path : Str
path = b'/' ∷ 0xE9 ∷ 0x4E16 ∷ 0x1F3B5 ∷ []

abbrev text : Str
text = origin ++ path

abbrev new_text : Str
new_text = proxy ++ path

edit : Replaced origin proxy text new_text
unfolding starts_with
edit = swap (keep refl (keep refl (keep refl (keep refl finish))))

text-IsScalar : All IsScalar text
text-IsScalar = ground arith

fields-IsField : All IsField fields
fields-IsField = (
  (ground arith, ground arith, ground arith),
  ((ground arith, ground arith, ground arith), ((ground arith, ground arith, ground arith), tt)),
)

rewrite_body-Replaced_example : rewrite_body origin proxy (as_bytes text) ≡ as_bytes new_text
rewrite_body-Replaced_example = rewrite_body-Replaced origin proxy (ground arith) text-IsScalar edit

framed : (text_head fields).is_chunked ≡ false
unfolding note_line
framed = refl

sized : (text_head fields).content_length ≡ some (length (as_bytes text))
unfolding note_line as_bytes
sized = refl

edited : passes (text_head fields) ≡ false
unfolding note_line passes should_rewrite_content
edited = refl

short : (n : ℕ) → 100 ≤ n → length (as_bytes new_text) ≤ n
unfolding as_bytes
short n h = omega arith

not_empty : 0 < length (as_bytes new_text)
unfolding as_bytes
not_empty = omega arith

read_headers-updated_headers_example :
    (h : Head) × (read_headers 9 no_head (
        conn
          (updated_headers (text_head fields) (length (as_bytes text)) 30 ++ codes "body")
          eof
          []
          [])
      ≡ (done (some h), conn (codes "body") eof [] []))
    × (h.content_length ≡ some 30)
    × (h.is_chunked ≡ (text_head fields).is_chunked)
read_headers-updated_headers_example =
    read_headers-updated_headers fields (length (as_bytes text)) 30 9 (codes "body") eof [] []
      (omega arith) (omega arith) fields-IsField sized

proxy_response_with_rewrite-client_example :
    (h : Head) × (read_headers 9 no_head (
        conn
          (proxy_response_with_rewrite origin proxy (
            conn
              (stream (text_response fields (as_bytes text) ∷ []) closed)
              eof
              (4 ∷ [])
              [])).1.sent
          eof
          []
          [])
      ≡ (done (some h), conn (as_bytes new_text) eof [] []))
    × (h.content_length ≡ some (length (as_bytes new_text)))
    × (h.is_chunked ≡ false)
proxy_response_with_rewrite-client_example =
    proxy_response_with_rewrite-client origin proxy fields 9 (4 ∷ []) (ground arith) text-IsScalar
      fields-IsField framed sized edited edit (short usize_max (omega arith)) (omega arith)

abbrev chunk : Str → Bytes → Chunk
chunk size text = record { size_text = size; payload = text; close0 = cr; close1 = lf }

abbrev pieces : List Chunk
pieces = chunk (codes "12\r") origin ∷ chunk (codes "A\r") (as_bytes path) ∷ []

abbrev no_more : Last
no_more = record { size_text = codes "0\r"; trailer = cr ∷ [] }

pieces-IsChunk : All IsChunk pieces
unfolding parse_chunk_size as_bytes
pieces-IsChunk = (
  record { one_line = ground arith; size_is = refl; not_empty = omega arith },
  (record { one_line = ground arith; size_is = refl; not_empty = omega arith }, tt),
)

no_more-IsLast : IsLast no_more
unfolding parse_chunk_size
no_more-IsLast = record { one_line = ground arith; size_is = refl; trailer_line = ground arith }

abbrev chunked_fields : List Str
chunked_fields =
    codes "HTTP/1.1 200 OK"
    ∷ codes "Content-Type: text/xml"
    ∷ codes "Transfer-Encoding: chunked"
    ∷ []

chunked_fields-IsField : All IsField chunked_fields
chunked_fields-IsField = (
  (ground arith, ground arith, ground arith),
  ((ground arith, ground arith, ground arith), ((ground arith, ground arith, ground arith), tt)),
)

chunked_head :
    ((text_head chunked_fields).is_chunked ≡ true)
    × ((text_head chunked_fields).content_length ≡ none)
    × (passes (text_head chunked_fields) ≡ false)
unfolding note_line passes should_rewrite_content
chunked_head = (refl, refl, refl)

in_pieces : payloads pieces ≡ as_bytes text
unfolding as_bytes
in_pieces = refl

pieces_fit : length (payloads pieces) ≤ max_rewritable_body_size
unfolding as_bytes
pieces_fit = omega arith

proxy_response_with_rewrite-chunked_client_example :
    (h : Head) × (wire : Bytes) × (read_headers 9 no_head (
        conn
          (proxy_response_with_rewrite origin proxy (
            conn
              (stream (chunked_response chunked_fields pieces no_more ∷ []) closed)
              eof
              (4 ∷ [])
              [])).1.sent
          eof
          []
          [])
      ≡ (done (some h), conn wire eof [] []))
    × (h.is_chunked ≡ true)
    × (read_chunked_body 2 100 [] (conn wire eof [] [])
        ≡ (done (as_bytes new_text), conn [] eof [] []))
proxy_response_with_rewrite-chunked_client_example =
    proxy_response_with_rewrite-chunked_client origin proxy chunked_fields pieces no_more 9 100
      (4 ∷ []) (ground arith) in_pieces text-IsScalar chunked_fields-IsField chunked_head.0
      chunked_head.1 chunked_head.2 pieces-IsChunk no_more-IsLast pieces_fit edit not_empty
      (short 100 (omega arith)) (omega arith) (omega arith)

small_body :
    read_chunked_body 5 10 [] (conn (codes "3\r\nabc\r\n0\r\n\r\n") eof [] [])
    ≡ (done (codes "abc"), conn [] eof [] [])
unfolding read_chunked_body parse_chunk_size exceeds capacity_overflow read_until_lf read_exact
small_body = refl

read_chunked_body-limit_example : 3 ≤ 10
read_chunked_body-limit_example =
    read_chunked_body-limit 5 10 (conn (codes "3\r\nabc\r\n0\r\n\r\n") eof [] [])
      (conn [] eof [] []) (codes "abc") (omega arith) small_body

wrapping_size : parse_chunk_size (codes "ffffffffffffffff\r\n") ≡ some (2 ^ 64 - 1)
unfolding parse_chunk_size
wrapping_size = refl

read_chunked_body_overflow_example :
    read_chunked_body 5 10 (codes "abc") (conn (codes "ffffffffffffffff\r\nrest") eof [] [])
    ≡ (panicked, conn (codes "rest") eof [] [])
read_chunked_body_overflow_example =
    read_chunked_body_overflow 4 10 (2 ^ 64 - 1) (codes "abc") (codes "ffffffffffffffff\r")
      (codes "rest") eof [] [] (omega arith) (omega arith) (omega arith) (omega arith)
      (ground arith) wrapping_size

-- A port that begins with the origin's is changed too.
other_port :
    rewrite_body origin proxy (codes "http://10.0.0.9:8099/") ≡ codes "http://10.0.0.1:808099/"
unfolding rewrite_body as_bytes replace from_utf8_lossy
other_port = refl
