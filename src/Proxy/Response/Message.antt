-- ===== src/Proxy/Response/Message.antt =====
-- A specification of the response task: the origin's stream as a list of messages, and what of each the
-- client is to get.
use dlna_proxy.Common.{
  ◌≤◌, true, false, some, List, [], ◌∷◌, ◌++◌, ◌⊎◌, ◌≡◌, length, All, if◌then◌else◌,
}
use dlna_proxy.Text.{Bytes, Str}
use dlna_proxy.Proxy.Header.{Head, no_head}
use dlna_proxy.Proxy.Chunk.Body.{Chunk, IsChunk, Last, IsLast, body_wire, payloads}
use dlna_proxy.Proxy.Chunk.Coding.{chunked_wire}
use dlna_proxy.Proxy.Response.{
  max_rewritable_body_size, no_framing, passes, updated_headers, rewrite_body,
}
use dlna_proxy.Proxy.Response.Headers.{IsHeader, IsBlank, header_wire, head_of}

pub data Body : Type 0 where
  fixed : Bytes → Body
  chunked : List Chunk → Last → Body

-- a response: its header lines and blank line without their LF, and its body
pub record Message : Type 0 where
  pub headers : List Bytes
  pub blank : Bytes
  pub body : Body

abbrev pub head : Message → Head
head m = head_of no_head m.headers m.blank

-- the bytes of a body on the wire, in front of `rest`
abbrev pub framed : Body → Bytes → Bytes
framed (fixed bs) rest = bs ++ rest
framed (chunked chs z) rest = body_wire chs z rest

abbrev pub message_wire : Message → Bytes → Bytes
message_wire m rest = header_wire m.headers m.blank (framed m.body rest)

-- The headers announce the body that follows: its length, or chunks. A chunked body that is to be rewritten is
-- within the limit.
abbrev pub Announces : Head → Body → Type 0
Announces h (fixed bs) = (h.is_chunked ≡ false) × (h.content_length ≡ some (length bs))
Announces h (chunked chs z) =
    (h.is_chunked ≡ true)
    × All IsChunk chs
    × IsLast z
    × ((passes h ≡ true) ⊎ (length (payloads chs) ≤ max_rewritable_body_size))

pub record IsMessage (m : Message) : Type 0 where
  pub header_lines : All IsHeader m.headers
  pub blank_line : IsBlank m.blank
  pub announced : Announces (head m) m.body

module _ (origin proxy : Str) where
  -- what the client gets of a body that is rewritten, behind the headers for it
  abbrev pub rewritten : Head → Body → Bytes
  rewritten h (fixed bs) =
      let new = rewrite_body origin proxy bs in updated_headers h (length bs) (length new) ++ new
  rewritten h (chunked chs z) =
      let new = rewrite_body origin proxy (payloads chs) in
      updated_headers h (length (payloads chs)) (length new) ++ chunked_wire new

  -- what the client gets of a message
  abbrev pub delivered : Message → Bytes
  delivered m = if passes (head m) then message_wire m [] else rewritten (head m) m.body

-- How the stream ends: at once, or by a response with no framing whose body is the rest.
pub data Tail : Type 0 where
  closed : Tail
  unframed : List Bytes → Bytes → Bytes → Tail

abbrev pub tail_wire : Tail → Bytes
tail_wire closed = []
tail_wire (unframed ls blank rest) = header_wire ls blank rest

abbrev pub IsTail : Tail → Type 0
IsTail closed = Unit
IsTail (unframed ls blank rest) =
    All IsHeader ls × IsBlank blank × (no_framing (head_of no_head ls blank) ≡ true)

-- the origin's whole stream
abbrev pub stream : List Message → Tail → Bytes
stream [] t = tail_wire t
stream (m ∷ ms) t = message_wire m (stream ms t)

-- what the client is to get of it
abbrev pub delivered_stream : Str → Str → List Message → Tail → Bytes
delivered_stream origin proxy [] t = tail_wire t
delivered_stream origin proxy (m ∷ ms) t =
    delivered origin proxy m ++ delivered_stream origin proxy ms t

-- the bytes of whole responses, in front of `rest`
abbrev pub messages_wire : List Message → Bytes → Bytes
messages_wire [] rest = rest
messages_wire (m ∷ ms) rest = message_wire m (messages_wire ms rest)

-- what the client is to get of them
abbrev pub delivered_all : Str → Str → List Message → Bytes
delivered_all origin proxy [] = []
delivered_all origin proxy (m ∷ ms) = delivered origin proxy m ++ delivered_all origin proxy ms
