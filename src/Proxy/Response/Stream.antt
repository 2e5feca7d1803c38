-- ===== src/Proxy/Response/Stream.antt =====
-- `proxy_response_with_rewrite` implements the specification.
use dlna_proxy.Common.{
  ℕ, zero, suc, ◌≤◌, ◌<◌, true, false, some, List, [], ◌∷◌, ◌++◌, append_assoc, append-nil, inl,
  inr, ◌≡◌, refl, ◌∙◌, arith, length, length-append, All, Bool-cases, if◌then◌else◌,
}
use dlna_proxy.Text.{Bytes, Str, lf}
use dlna_proxy.Net.{Conn, Ending, eof, done}
use dlna_proxy.Net.Laws.{conn, write_all_lem, copy_all}
use dlna_proxy.Proxy.Header.{Head, no_head}
use dlna_proxy.Proxy.Response.{
  no_framing, passes, stream_rest, pass_response, respond, after_headers, proxy_rounds,
  proxy_response_with_rewrite,
}
use dlna_proxy.Proxy.Response.Headers.{
  header_wire, head_of, read_headers-header_wire, header_wire-append, header_buf-head_of,
  read_headers_end, length-header_wire,
}
use dlna_proxy.Proxy.Response.Message.{
  Body, fixed, chunked, Message, head, framed, message_wire, Announces, IsMessage, rewritten,
  delivered, Tail, closed, unframed, tail_wire, IsTail, stream, delivered_stream,
}
use dlna_proxy.Proxy.Response.Bodies.{
  length-body_wire, pass_through-framed, rewrite_response-framed,
}

header_wire_cons :
    (ls : List Bytes) (blank rest : Bytes)
    → (b : ℕ) × (bs : Bytes) × (header_wire ls blank rest ≡ b ∷ bs)
header_wire_cons [] [] rest = (lf, rest, refl)
header_wire_cons [] (b ∷ blank) rest = (b, blank ++ lf ∷ rest, refl)
header_wire_cons ([] ∷ ls) blank rest = (lf, header_wire ls blank rest, refl)
header_wire_cons ((b ∷ l) ∷ ls) blank rest = (b, l ++ lf ∷ header_wire ls blank rest, refl)

stream_rest_lem :
    (h : Head) (rest : Bytes) (rs : List ℕ) (out : Bytes)
    → stream_rest h (conn rest eof rs out)
      ≡ (done false, conn [] eof rs ((out ++ h.header_buf) ++ rest))
unfolding stream_rest
stream_rest_lem h rest rs out = rw (write_all_lem, copy_all)

module _ (origin proxy : Str) where
  -- what the client gets behind a header block that the loop has read
  abbrev answered : Head → Body → Bytes
  answered h b = if passes h then h.header_buf ++ framed b [] else rewritten origin proxy h b

  framed-no_framing : (h : Head) (b : Body) → Announces h b → no_framing h ≡ false
  unfolding no_framing
  framed-no_framing h (fixed bs) a = rw (a.0, a.1)
  framed-no_framing h (chunked chs z) a = rw a.0

  pass_response-framed :
      (h : Head) (b : Body) (rest : Bytes) (e : Ending) (rs : List ℕ) (out : Bytes)
      → Announces h b
      → (rs' : List ℕ) × (pass_response h (conn (framed b rest) e rs out)
          ≡ (done true, conn rest e rs' (out ++ (h.header_buf ++ framed b []))))
  unfolding pass_response
  pass_response-framed h b rest e rs out a =
      let (rs', all) = pass_through-framed h b rest e rs (out ++ h.header_buf) a in
      (rs', rw (write_all_lem, all, append_assoc))

  -- One response: it is taken from the stream, answered, and the loop goes on.
  respond-framed :
      (h : Head) (b : Body) (rest : Bytes) (e : Ending) (rs : List ℕ) (out : Bytes)
      → Announces h b
      → (rs' : List ℕ) × (respond origin proxy h (conn (framed b rest) e rs out)
          ≡ (done true, conn rest e rs' (out ++ answered h b)))
  unfolding respond
  respond-framed h b rest e rs out a = elim (Bool-cases (passes h)) [
    | inl pass ↦
        let (rs', all) = pass_response-framed h b rest e rs out a in
        (rs', rw (framed-no_framing h b a, pass) all)
    | inr edit ↦ (
      rs,
      rw (framed-no_framing h b a, edit)
          (rewrite_response-framed origin proxy h b rest e rs out a edit),
    )
  ]

  -- Behind its headers, a response is answered.
  pub after_headers_lem :
      (ls : List Bytes) (blank : Bytes) (c : Conn)
      → after_headers origin proxy (some (head_of no_head ls blank)) c
        ≡ respond origin proxy (head_of no_head ls blank) c
  unfolding after_headers
  after_headers_lem ls blank c =
      let (b, bs, e) = header_wire_cons ls blank [] in
      let full : (head_of no_head ls blank).header_buf ≡ b ∷ bs =
        header_buf-head_of ls blank no_head ∙ e in
      rw full

  answered-delivered : (m : Message) → answered (head m) m.body ≡ delivered origin proxy m
  answered-delivered m = rw (
    header_buf-head_of m.headers m.blank no_head,
    header_wire-append m.headers m.blank [] (framed m.body []),
  )

  -- One round of the loop.
  pub proxy_rounds-message :
      (f : ℕ) (m : Message) (rest : Bytes) (e : Ending) (rs : List ℕ) (out : Bytes)
      → IsMessage m
      → (rs' : List ℕ) × (proxy_rounds origin proxy (suc f) (conn (message_wire m rest) e rs out)
          ≡ proxy_rounds origin proxy f (conn rest e rs' (out ++ delivered origin proxy m)))
  unfolding proxy_rounds
  proxy_rounds-message f m rest e rs out h =
      let (rs', answer) = respond-framed (head m) m.body rest e rs out h.announced in
      (
        rs',
        rw (
          read_headers-header_wire m.headers m.blank (suc (length (message_wire m rest))) no_head
              (framed m.body rest) e rs out
              (omega (arith, length-header_wire m.headers m.blank (framed m.body rest)))
              h.header_lines h.blank_line,
          after_headers_lem m.headers m.blank,
          answer,
          answered-delivered m,
        ),
      )

  pub proxy_rounds-tail :
      (f : ℕ) (t : Tail) (rs : List ℕ) (out : Bytes)
      → IsTail t
      → proxy_rounds origin proxy (suc f) (conn (tail_wire t) eof rs out)
        ≡ (done tt, conn [] eof rs (out ++ tail_wire t))
  unfolding proxy_rounds respond after_headers
  proxy_rounds-tail f closed rs out h = rw (read_headers_end, append-nil)
  proxy_rounds-tail f (unframed ls blank rest) rs out (hs, hb, bare) = rw (
    read_headers-header_wire ls blank (suc (length (header_wire ls blank rest))) no_head rest eof rs
        out (omega (arith, length-header_wire ls blank rest)) hs hb,
    after_headers_lem ls blank,
    bare,
    stream_rest_lem,
    header_buf-head_of ls blank no_head,
    append_assoc,
    header_wire-append ls blank [] rest,
  )

  proxy_rounds-stream :
      (ms : List Message) (t : Tail) (f : ℕ) (rs : List ℕ) (out : Bytes)
      → length ms < f
      → All IsMessage ms
      → IsTail t
      → (rs' : List ℕ) × (proxy_rounds origin proxy f (conn (stream ms t) eof rs out)
          ≡ (done tt, conn [] eof rs' (out ++ delivered_stream origin proxy ms t)))
  proxy_rounds-stream [] t zero rs out lt hs ht = absurd (omega arith)
  proxy_rounds-stream [] t (suc f) rs out lt hs ht = (rs, proxy_rounds-tail f t rs out ht)
  proxy_rounds-stream (m ∷ ms) t zero rs out lt hs ht = absurd (omega arith)
  proxy_rounds-stream (m ∷ ms) t (suc f) rs out lt (h, hs) ht =
      let (rs', round) = proxy_rounds-message f m (stream ms t) eof rs out h in
      let (rs'', later) =
        proxy_rounds-stream ms t f rs' (out ++ delivered origin proxy m) (omega arith) hs ht in
      (rs'', round ∙ later ∙ rw append_assoc refl)

pub length-framed : (b : Body) (rest : Bytes) → length rest ≤ length (framed b rest)
length-framed (fixed bs) rest = omega (arith, length-append bs rest)
length-framed (chunked chs z) rest = omega (arith, length-body_wire chs z rest)

length-stream : (ms : List Message) (t : Tail) → length ms ≤ length (stream ms t)
length-stream [] t = omega arith
length-stream (m ∷ ms) t = omega (
  arith,
  length-stream ms t,
  length-framed m.body (stream ms t),
  length-header_wire m.headers m.blank (framed m.body (stream ms t)),
)

-- For every stream of well-formed responses, fixed-length or chunked, with a last one that may have no framing,
-- and however the network cuts it: the task consumes the whole stream, returns without an error, and what it
-- sent to the client is exactly what the specification says, response by response.
pub proxy_response_with_rewrite-stream :
    (origin proxy : Str) (ms : List Message) (t : Tail) (rs : List ℕ)
    → All IsMessage ms
    → IsTail t
    → (rs' : List ℕ) × (proxy_response_with_rewrite origin proxy (conn (stream ms t) eof rs [])
        ≡ (done tt, conn [] eof rs' (delivered_stream origin proxy ms t)))
unfolding proxy_response_with_rewrite
proxy_response_with_rewrite-stream origin proxy ms t rs hs ht =
    proxy_rounds-stream origin proxy ms t (suc (length (stream ms t))) rs []
      (omega (arith, length-stream ms t)) hs ht
