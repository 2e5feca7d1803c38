-- ===== src/Proxy/Response/Broken.antt =====
-- tcp_proxy.rs: the origin's stream ends within the body of a response.
use dlna_proxy.Common.{
  ℕ, Bool, zero, suc, ◌+◌, ◌-◌, ◌≤◌, ◌<◌, true, false, some, List, [], ◌∷◌, ◌++◌, append_assoc,
  append-nil, ◌⊎◌, inl, inr, ◌≡◌, refl, ap, ◌∙◌, arith, leb, length, All, Bool-cases,
}
use dlna_proxy.Text.{Bytes, Str}
use dlna_proxy.Net.{
  Conn, Ending, eof, reset, Outcome, done, failed, connection_reset, pure, bind_outcome, end_error,
  read_exact,
}
use dlna_proxy.Net.Laws.{conn, write_all_lem}
use dlna_proxy.Proxy.Header.{Head, no_head}
use dlna_proxy.Proxy.Chunk.Forward.{forwarded_end, forward_short}
use dlna_proxy.Proxy.Chunk.Body.{not-capacity_overflow}
use dlna_proxy.Proxy.Response.{
  no_framing, passes, pass_through, pass_response, read_body, read_fixed_body, rewrite_response,
  respond, proxy_rounds, proxy_response_with_rewrite,
}
use dlna_proxy.Proxy.Response.Headers.{
  IsHeader, IsBlank, header_wire, head_of, read_headers-header_wire, header_wire-append,
  header_buf-head_of, length-header_wire,
}
use dlna_proxy.Proxy.Response.Message.{
  Message, IsMessage, framed, closed, delivered, messages_wire, delivered_all,
}
use dlna_proxy.Proxy.Response.Bodies.{passes-fits}
use dlna_proxy.Proxy.Response.Stream.{
  after_headers_lem, proxy_rounds-message, proxy_rounds-tail, length-framed,
}

-- headers with a Content-Length of `n` and no chunks
pub record IsSized (h : Head) (n : ℕ) : Type 0 where
  pub not_chunked : h.is_chunked ≡ false
  pub announced : h.content_length ≡ some n

-- the end of `pass_response`
passed_end : Ending → Outcome Bool
passed_end eof = done true
passed_end reset = failed connection_reset

passed_end_lem :
    (e : Ending) (c : Conn) → bind_outcome (forwarded_end e, c) (λ _. pure true) ≡ (passed_end e, c)
unfolding passed_end
passed_end_lem eof c = refl
passed_end_lem reset c = refl

module _ (h : Head) (n : ℕ) (part : Bytes) (e : Ending) (rs : List ℕ) (size : IsSized h n)
    (few : length part < n) where
  pass_through_short :
      (out : Bytes)
      → (rs' : List ℕ) × (pass_through h.is_chunked h.content_length (conn part e rs out)
          ≡ (forwarded_end e, conn [] e rs' (out ++ part)))
  unfolding pass_through
  pass_through_short out =
      rw (size.not_chunked, size.announced) (forward_short n n part e rs out (omega arith) few)

  read_exact_short :
      (out : Bytes) → read_exact n (conn part e rs out) ≡ (failed (end_error e), conn [] e rs out)
  unfolding read_exact
  read_exact_short out = let missing : leb n (length part) ≡ false = ground arith in rw missing

  read_body_short :
      (out : Bytes)
      → passes h ≡ false
      → read_body h.is_chunked h.content_length (conn part e rs out)
        ≡ (failed (end_error e), conn [] e rs out)
  unfolding read_body read_fixed_body
  read_body_short out edit =
      let fits = passes-fits h n edit size.announced in
      rw (size.not_chunked, size.announced, not-capacity_overflow n (omega arith), read_exact_short)

  IsSized-no_framing : no_framing h ≡ false
  unfolding no_framing
  IsSized-no_framing = rw (size.not_chunked, size.announced)

  -- A response that is passed on is sent as far as it has come.
  pass_response_short :
      (out : Bytes)
      → (rs' : List ℕ) × (pass_response h (conn part e rs out)
          ≡ (passed_end e, conn [] e rs' (out ++ (h.header_buf ++ part))))
  unfolding pass_response passed_end
  pass_response_short out =
      let (rs', all) = pass_through_short (out ++ h.header_buf) in
      (rs', rw (write_all_lem, all, append_assoc) (passed_end_lem e _))

module _ (origin proxy : Str) where
  -- whole responses in front
  proxy_rounds-messages :
      (ms : List Message) (f g : ℕ) (rest : Bytes) (e : Ending) (rs : List ℕ) (out : Bytes)
      → g ≡ length ms + f
      → All IsMessage ms
      → (rs' : List ℕ) × (proxy_rounds origin proxy g (conn (messages_wire ms rest) e rs out)
          ≡ proxy_rounds origin proxy f (conn rest e rs' (out ++ delivered_all origin proxy ms)))
  proxy_rounds-messages [] f g rest e rs out is hs =
      let same : g ≡ f = omega arith in (rs, rw (same, append-nil) refl)
  proxy_rounds-messages (m ∷ ms) f zero rest e rs out is hs = absurd (omega arith)
  proxy_rounds-messages (m ∷ ms) f (suc g) rest e rs out is (h, hs) =
      let (rs', round) = proxy_rounds-message origin proxy g m (messages_wire ms rest) e rs out h in
      let (rs'', later) =
        proxy_rounds-messages ms f g rest e rs' (out ++ delivered origin proxy m) (omega arith)
          hs in
      (rs'', round ∙ later ∙ rw append_assoc refl)

  -- Behind a response that was passed on as far as it had come, the loop ends.
  after_passed_end :
      (f : ℕ) (e : Ending) (rs : List ℕ) (out : Bytes)
      → bind_outcome
          (passed_end e, conn [] e rs out)
          (elim [ true ↦ proxy_rounds origin proxy (suc f) | false ↦ pure tt ])
        ≡ (forwarded_end e, conn [] e rs out)
  unfolding passed_end
  after_passed_end f eof rs out =
      proxy_rounds-tail origin proxy f closed rs out tt ∙ rw append-nil refl
  after_passed_end f reset rs out = refl

  module _ (f n : ℕ) (ls : List Bytes) (blank part : Bytes) (e : Ending) (rs : List ℕ) (out : Bytes)
      (hs : All IsHeader ls) (hb : IsBlank blank) (size : IsSized (head_of no_head ls blank) n)
      (few : length part < n) where
    -- the rounds from the broken response on
    abbrev last_rounds : Outcome (Unit {0}) × Conn
    last_rounds =
        proxy_rounds origin proxy (suc (suc f)) (conn (header_wire ls blank part) e rs out)

    last_rounds-respond :
        last_rounds
        ≡ bind_outcome
            (respond origin proxy (head_of no_head ls blank) (conn part e rs out))
            (elim [ true ↦ proxy_rounds origin proxy (suc f) | false ↦ pure tt ])
    unfolding proxy_rounds
    last_rounds-respond = rw (
      read_headers-header_wire ls blank (suc (length (header_wire ls blank part))) no_head part e rs
          out (omega (arith, length-header_wire ls blank part)) hs hb,
      after_headers_lem origin proxy ls blank,
    )

    last_rounds_passed :
        passes (head_of no_head ls blank) ≡ true
        → (rs' : List ℕ) × (last_rounds
            ≡ (forwarded_end e, conn [] e rs' (out ++ header_wire ls blank part)))
    unfolding respond
    last_rounds_passed pass =
        let h = head_of no_head ls blank in
        let (rs', all) = pass_response_short h n part e rs size few out in
        (
          rs',
          last_rounds-respond
              ∙ rw
                  (
                    IsSized-no_framing h n part e rs size few,
                    pass,
                    all,
                    header_buf-head_of ls blank no_head,
                    header_wire-append ls blank [] part,
                  )
                  (after_passed_end f e rs' (out ++ header_wire ls blank part)),
        )

    last_rounds_edited :
        passes (head_of no_head ls blank) ≡ false
        → last_rounds ≡ (failed (end_error e), conn [] e rs out)
    unfolding respond rewrite_response
    last_rounds_edited edit =
        let h = head_of no_head ls blank in
        last_rounds-respond
        ∙ rw (
          IsSized-no_framing h n part e rs size few,
          edit,
          read_body_short h n part e rs size few out edit,
        )

length-messages_wire :
    (ms : List Message) (rest : Bytes) → length ms + length rest ≤ length (messages_wire ms rest)
length-messages_wire [] rest = omega arith
length-messages_wire (m ∷ ms) rest = omega (
  arith,
  length-messages_wire ms rest,
  length-framed m.body (messages_wire ms rest),
  length-header_wire m.headers m.blank (framed m.body (messages_wire ms rest)),
)

-- Behind any number of whole responses, the origin's stream ends, in an orderly way or with a reset, within the
-- body of a response with a Content-Length. All earlier responses are delivered. If the broken one is to be
-- rewritten, nothing of it is sent, and the task ends with the error of the read. If it is passed on, the client
-- gets what has come of it, and the task ends without an error at an orderly end, and with one at a reset.
pub proxy_response_with_rewrite_broken :
    (origin proxy : Str) (ms : List Message) (ls : List Bytes) (blank part : Bytes) (n : ℕ)
    (e : Ending) (rs : List ℕ)
    → All IsMessage ms
    → All IsHeader ls
    → IsBlank blank
    → IsSized (head_of no_head ls blank) n
    → length part < n
    → let r =
        proxy_response_with_rewrite origin proxy
          (conn (messages_wire ms (header_wire ls blank part)) e rs []) in
      ((passes (head_of no_head ls blank) ≡ true)
        × (r.0 ≡ forwarded_end e)
        × (r.1.sent ≡ delivered_all origin proxy ms ++ header_wire ls blank part))
      ⊎ ((passes (head_of no_head ls blank) ≡ false)
          × (r.0 ≡ failed (end_error e))
          × (r.1.sent ≡ delivered_all origin proxy ms))
unfolding proxy_response_with_rewrite
proxy_response_with_rewrite_broken origin proxy ms ls blank part n e rs hms hs hb size few =
    let wire = messages_wire ms (header_wire ls blank part) in
    let f = length wire - length ms - 1 in
    let (rs', front) =
      proxy_rounds-messages origin proxy ms (suc (suc f)) (suc (length wire))
        (header_wire ls blank part) e rs []
        (omega (
          arith,
          length-messages_wire ms (header_wire ls blank part),
          length-header_wire ls blank part,
        ))
        hms in
    elim (Bool-cases (passes (head_of no_head ls blank))) [
      | inl pass ↦
          let (rs'', end) =
            last_rounds_passed origin proxy f n ls blank part e rs' (delivered_all origin proxy ms)
              hs hb size few pass in
          inl (pass, ap (λ r. r.0) (front ∙ end), ap (λ r. r.1.sent) (front ∙ end))
      | inr edit ↦
          let end =
            last_rounds_edited origin proxy f n ls blank part e rs' (delivered_all origin proxy ms)
              hs hb size few edit in
          inr (edit, ap (λ r. r.0) (front ∙ end), ap (λ r. r.1.sent) (front ∙ end))
    ]
