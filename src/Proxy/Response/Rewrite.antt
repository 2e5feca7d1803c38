-- ===== src/Proxy/Response/Rewrite.antt =====
-- What is replaced in a body, and what a client finds in a response that was rewritten.
use dlna_proxy.Common.{
  ℕ, false, List, [], ◌∷◌, ◌++◌, append-nil, ◌<◌, ◌≢◌, ◌≡◌, refl, ◌∙◌, length, All, some, ◌≤◌, inr,
}
use dlna_proxy.Text.{Bytes, Str, cr}
use dlna_proxy.Text.Utf8.{as_bytes}
use dlna_proxy.Text.Utf8.Encoding.{IsScalar, from_utf8_lossy-as_bytes}
use dlna_proxy.Text.Matches.{Replaced, replace-Replaced}
use dlna_proxy.Proxy.Header.{Head, no_head}
use dlna_proxy.Proxy.Chunk.{isize_max, read_chunked_body}
use dlna_proxy.Proxy.Chunk.Body.{Chunk, IsChunk, Last, IsLast, payloads}
use dlna_proxy.Proxy.Chunk.Coding.{
  chunked_wire, write_chunked_body_lem, read_chunked_body-write_chunked_body,
}
use dlna_proxy.Proxy.Response.{max_rewritable_body_size}
use dlna_proxy.Proxy.Response.Client.{updated_headers-chunked, read_headers-text}
use dlna_proxy.Proxy.Response.Headers.{header_wire}
use dlna_proxy.Proxy.Response.Message.{chunked}
use dlna_proxy.Common.{none, true}
use dlna_proxy.Proxy.Response.{
  rewrite_body, updated_headers, passes, read_headers, proxy_response_with_rewrite,
}
use dlna_proxy.Proxy.Response.Block.{IsField, with_cr, text_head, IsField-IsHeader}
use dlna_proxy.Proxy.Response.Client.{read_headers-updated_headers}
use dlna_proxy.Proxy.Response.Message.{Message, fixed, IsMessage, delivered, closed, stream}
use dlna_proxy.Proxy.Response.Stream.{proxy_response_with_rewrite-stream}
use dlna_proxy.Net.{eof, done}
use dlna_proxy.Net.Laws.{conn}
use dlna_proxy.Text.Number.{usize_max}

-- In a body of text, in UTF-8, exactly the matches of the origin's base, taken from the left, are replaced by
-- the proxy's base; all else stays.
pub rewrite_body-Replaced :
    (origin proxy : Str) {text new : Str}
    → origin ≢ []
    → All IsScalar text
    → Replaced origin proxy text new
    → rewrite_body origin proxy (as_bytes text) ≡ as_bytes new
unfolding rewrite_body
rewrite_body-Replaced origin proxy {text} ne hs r =
    rw (from_utf8_lossy-as_bytes text hs, replace-Replaced origin proxy ne r)

-- a response of text: header lines without CR LF, and a body of the announced length
abbrev pub text_response : List Str → Bytes → Message
text_response ls body = record { headers = with_cr ls; blank = cr ∷ []; body = fixed body }

delivered-text_response :
    (origin proxy : Str) (ls : List Str) {text new : Str}
    → origin ≢ []
    → All IsScalar text
    → passes (text_head ls) ≡ false
    → Replaced origin proxy text new
    → delivered origin proxy (text_response ls (as_bytes text))
      ≡ updated_headers (text_head ls) (length (as_bytes text)) (length (as_bytes new))
        ++ as_bytes new
delivered-text_response origin proxy ls ne hs edits r =
    rw (edits, rewrite_body-Replaced origin proxy ne hs r)

-- From one end to the other: a response with header lines of ASCII and a body of text in UTF-8, of a type that is
-- rewritten and with its Content-Length, goes through the response task, however the network cuts it. A client that reads what was sent with the same
-- header loop finds the length of the new body, the framing as it was, and behind the headers exactly the body
-- with the origin's base replaced.
pub proxy_response_with_rewrite-client :
    (origin proxy : Str) (ls : List Str) {text new : Str} (f : ℕ) (rs : List ℕ)
    → origin ≢ []
    → All IsScalar text
    → All IsField ls
    → (text_head ls).is_chunked ≡ false
    → (text_head ls).content_length ≡ some (length (as_bytes text))
    → passes (text_head ls) ≡ false
    → Replaced origin proxy text new
    → length (as_bytes new) ≤ usize_max
    → length ls < f
    → (h : Head) × (read_headers f no_head (
          conn
            (proxy_response_with_rewrite origin proxy
              (conn (stream (text_response ls (as_bytes text) ∷ []) closed) eof rs [])).1.sent
            eof
            []
            [])
        ≡ (done (some h), conn (as_bytes new) eof [] []))
      × (h.content_length ≡ some (length (as_bytes new)))
      × (h.is_chunked ≡ false)
proxy_response_with_rewrite-client origin proxy ls {text} {new} f rs ne hs fs whole len edits r fits
      enough =
    let m = text_response ls (as_bytes text) in
    let is_message : IsMessage m = record {
      header_lines = IsField-IsHeader ls fs;
      blank_line = inr refl;
      announced = (whole, len);
    } in
    let (rs', all) =
      proxy_response_with_rewrite-stream origin proxy (m ∷ []) closed rs (is_message, tt) tt in
    let (h, reads, is, framing) =
      read_headers-updated_headers ls (length (as_bytes text)) (length (as_bytes new)) f
        (as_bytes new) eof [] [] enough fits fs len in
    (
      h,
      rw
          (
            all,
            append-nil (delivered origin proxy m),
            delivered-text_response origin proxy ls ne hs edits r,
          )
          reads,
      is,
      framing ∙ whole,
    )

-- a response of text in chunks
abbrev pub chunked_response : List Str → List Chunk → Last → Message
chunked_response ls chs z = record { headers = with_cr ls; blank = cr ∷ []; body = chunked chs z }

delivered-chunked_response :
    (origin proxy : Str) (ls : List Str) (chs : List Chunk) (z : Last) {text new : Str}
    → origin ≢ []
    → payloads chs ≡ as_bytes text
    → All IsScalar text
    → All IsField ls
    → (text_head ls).content_length ≡ none
    → passes (text_head ls) ≡ false
    → Replaced origin proxy text new
    → delivered origin proxy (chunked_response ls chs z)
      ≡ header_wire (with_cr ls) (cr ∷ []) [] ++ chunked_wire (as_bytes new)
delivered-chunked_response origin proxy ls chs z ne is hs fs absent edits r = rw (
  edits,
  is,
  rewrite_body-Replaced origin proxy ne hs r,
  updated_headers-chunked ls _ _ fs absent,
)

-- The same for a response of UTF-8 text in chunks, of any number and sizes within the limit: behind the headers, which still
-- announce chunks, the client's reader of chunked bodies finds exactly the body with the origin's base replaced,
-- if that is not empty, and nothing is left behind it.
pub proxy_response_with_rewrite-chunked_client :
    (origin proxy : Str) (ls : List Str) (chs : List Chunk) (z : Last) {text new : Str}
    (f max_size : ℕ) (rs : List ℕ)
    → origin ≢ []
    → payloads chs ≡ as_bytes text
    → All IsScalar text
    → All IsField ls
    → (text_head ls).is_chunked ≡ true
    → (text_head ls).content_length ≡ none
    → passes (text_head ls) ≡ false
    → All IsChunk chs
    → IsLast z
    → length (payloads chs) ≤ max_rewritable_body_size
    → Replaced origin proxy text new
    → 0 < length (as_bytes new)
    → length (as_bytes new) ≤ max_size
    → max_size ≤ isize_max
    → length ls < f
    → (h : Head) × (wire : Bytes) × (read_headers f no_head (
          conn
            (proxy_response_with_rewrite origin proxy
              (conn (stream (chunked_response ls chs z ∷ []) closed) eof rs [])).1.sent
            eof
            []
            [])
        ≡ (done (some h), conn wire eof [] []))
      × (h.is_chunked ≡ true)
      × (read_chunked_body 2 max_size [] (conn wire eof [] [])
          ≡ (done (as_bytes new), conn [] eof [] []))
proxy_response_with_rewrite-chunked_client origin proxy ls chs z {text} {new} f max_size rs ne is hs
      fs whole absent edits cs l within r some_left fits small enough =
    let m = chunked_response ls chs z in
    let is_message : IsMessage m = record {
      header_lines = IsField-IsHeader ls fs;
      blank_line = inr refl;
      announced = (whole, cs, l, inr within);
    } in
    let (rs', all) =
      proxy_response_with_rewrite-stream origin proxy (m ∷ []) closed rs (is_message, tt) tt in
    let back =
      read_chunked_body-write_chunked_body (as_bytes new) [] max_size eof [] [] some_left fits
        small in
    (
      text_head ls,
      chunked_wire (as_bytes new),
      rw
          (
            all,
            append-nil,
            delivered-chunked_response origin proxy ls chs z ne is hs fs absent edits r,
          )
          (read_headers-text ls f (chunked_wire (as_bytes new)) eof [] [] enough fs),
      whole,
      rw (write_chunked_body_lem, append-nil) at back,
    )
