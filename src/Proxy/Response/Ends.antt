-- ===== src/Proxy/Response/Ends.antt =====
-- The response task ends, whatever the origin sends and the network does.
use dlna_proxy.Common.{
  ℕ, zero, suc, ◌≤◌, ◌<◌, Bool, true, false, Option, none, some, [], ◌∷◌, ◌≢◌, arith, length,
  Bool-cases, inl, inr,
}
use dlna_proxy.Text.{Bytes, Str}
use dlna_proxy.Net.{
  Conn, Outcome, done, failed, panicked, no_fuel, M, bind_outcome, read_until_lf, write_all, copy,
}
use dlna_proxy.Net.Ends.{
  Ends, LineEnds, Ends-bind, Ends-step, Ends-mono, read_until_lf-LineEnds, read_exact-Ends,
  write_all-Ends, copy-Ends, Ends-ne-no_fuel,
}
use dlna_proxy.Proxy.Chunk.{allocate, read_chunked_body}
use dlna_proxy.Proxy.Chunk.Ends.{
  forward-Ends, pass_through_chunked-Ends, read_chunked_body-Ends, write_chunked_body-Ends,
  allocate_if-Ends,
}
use dlna_proxy.Proxy.Header.{Head, no_head, note_line, is_blank_line}
use dlna_proxy.Proxy.Response.{
  read_headers, pass_through, read_body, read_fixed_body, send_body, send_rewritten, respond,
  no_framing, passes, stream_rest, pass_response, rewrite_response, after_headers, unless_empty,
  proxy_rounds, proxy_response_with_rewrite, max_rewritable_body_size, updated_headers,
  rewrite_body,
}

-- Behind a header block, less input is left.
abbrev HeadEnds : ℕ → Outcome (Option Head) × Conn → Type 0
HeadEnds n (done none, c) = length c.input ≤ n
HeadEnds n (done (some h), c) = suc (length c.input) ≤ n
HeadEnds n (failed e, c) = Unit
HeadEnds n (panicked, c) = Unit
HeadEnds n (no_fuel, c) = ⊥

HeadEnds-mono : (m n : ℕ) (r : Outcome (Option Head) × Conn) → m ≤ n → HeadEnds m r → HeadEnds n r
HeadEnds-mono m n (done none, c) h e = omega arith
HeadEnds-mono m n (done (some x), c) h e = omega arith
HeadEnds-mono m n (failed x, c) h e = tt
HeadEnds-mono m n (panicked, c) h e = tt
HeadEnds-mono m n (no_fuel, c) h e = e

HeadEnds-line :
    (n : ℕ) (r : Outcome Bytes × Conn) (f : Bytes → M (Option Head))
    → LineEnds n r
    → ((c : Conn) → length c.input ≤ n → HeadEnds n (f [] c))
    → ((b : ℕ) (bs : Bytes) (c : Conn) → suc (length c.input) ≤ n → HeadEnds n (f (b ∷ bs) c))
    → HeadEnds n (bind_outcome r f)
HeadEnds-line n (done [], c) f h k l = k c h
HeadEnds-line n (done (b ∷ bs), c) f h k l = l b bs c h
HeadEnds-line n (failed e, c) f h k l = tt
HeadEnds-line n (panicked, c) f h k l = tt
HeadEnds-line n (no_fuel, c) f h k l = h

read_headers-HeadEnds :
    (f : ℕ) (h : Head) (c : Conn)
    → length c.input < f
    → HeadEnds (length c.input) (read_headers f h c)
unfolding read_headers
read_headers-HeadEnds zero h c lt = absurd (omega arith)
read_headers-HeadEnds (suc f) h c lt =
    HeadEnds-line (length c.input) (read_until_lf c) _ (read_until_lf-LineEnds c) (λ c1 h1. h1)
      λ b bs c1 h1. elim (Bool-cases (is_blank_line (b ∷ bs))) [
        | inl blank ↦ rw blank h1
        | inr more ↦ rw more (
            HeadEnds-mono (length c1.input) (length c.input) _ (omega arith)
              (read_headers-HeadEnds f (note_line h (b ∷ bs)) c1 (omega arith)))
      ]

HeadEnds-bind :
    {B : Type 0} (n : ℕ) (r : Outcome (Option Head) × Conn) (f : Option Head → M B)
    → HeadEnds n r
    → ((c : Conn) → length c.input ≤ n → Ends n (f none c))
    → ((h : Head) (c : Conn) → suc (length c.input) ≤ n → Ends n (f (some h) c))
    → Ends n (bind_outcome r f)
HeadEnds-bind n (done none, c) f h k l = k c h
HeadEnds-bind n (done (some x), c) f h k l = l x c h
HeadEnds-bind n (failed e, c) f h k l = tt
HeadEnds-bind n (panicked, c) f h k l = tt
HeadEnds-bind n (no_fuel, c) f h k l = h

pass_through-Ends :
    (b : Bool) (o : Option ℕ) (c : Conn) → Ends (length c.input) (pass_through b o c)
unfolding pass_through
pass_through-Ends true o c = pass_through_chunked-Ends (suc (length c.input)) c (omega arith)
pass_through-Ends false (some n) c = forward-Ends n n c (omega arith)
pass_through-Ends false none c = omega arith

read_body-Ends : (b : Bool) (o : Option ℕ) (c : Conn) → Ends (length c.input) (read_body b o c)
unfolding read_body
read_body-Ends true o c =
    Ends-bind (length c.input)
      (read_chunked_body (suc (length c.input)) max_rewritable_body_size [] c) _
      (read_chunked_body-Ends (suc (length c.input)) max_rewritable_body_size [] c (omega arith))
      λ body c1 h1. h1
read_body-Ends false (some n) c =
    Ends-bind (length c.input) (read_fixed_body n c) _ (fixed n c) λ body c1 h1. h1
  where
    fixed : (n : ℕ) (c : Conn) → Ends (length c.input) (read_fixed_body n c)
    fixed n c =
        Ends-bind (length c.input) (allocate n c) _ (allocate_if-Ends _ c)
          λ _ c1 h1. Ends-mono (length c1.input) (length c.input) _ h1 (read_exact-Ends n c1)
read_body-Ends false none c = omega arith

send_body-Ends : (b : Bool) (bs : Bytes) (c : Conn) → Ends (length c.input) (send_body b bs c)
unfolding send_body
send_body-Ends true = write_chunked_body-Ends
send_body-Ends false = write_all-Ends

send_rewritten-Ends :
    (h : Head) (body new : Bytes) (c : Conn) → Ends (length c.input) (send_rewritten h body new c)
unfolding send_rewritten
send_rewritten-Ends h body new c =
    let n = length c.input in
    let head = updated_headers h (length body) (length new) in
    Ends-step n (write_all head) c _ (omega arith) (write_all-Ends head) λ _ c1 h1.
      Ends-step n (send_body h.is_chunked new) c1 _ h1 (send_body-Ends h.is_chunked new)
        λ _ c2 h2. h2

stream_rest-Ends : (h : Head) (c : Conn) → Ends (length c.input) (stream_rest h c)
unfolding stream_rest
stream_rest-Ends h c =
    let n = length c.input in
    Ends-step n (write_all h.header_buf) c _ (omega arith) (write_all-Ends h.header_buf)
      λ _ c1 h1. Ends-step n copy c1 _ h1 copy-Ends λ _ c2 h2. h2

pass_response-Ends : (h : Head) (c : Conn) → Ends (length c.input) (pass_response h c)
unfolding pass_response
pass_response-Ends h c =
    let n = length c.input in
    Ends-step n (write_all h.header_buf) c _ (omega arith) (write_all-Ends h.header_buf) λ _ c1 h1.
      Ends-step n (pass_through h.is_chunked h.content_length) c1 _ h1
        (pass_through-Ends h.is_chunked h.content_length) λ _ c2 h2. h2

unless_empty-Ends :
    (buf : Bytes) (m : M Bool) (c : Conn)
    → Ends (length c.input) (m c)
    → Ends (length c.input) (unless_empty buf m c)
unless_empty-Ends [] m c h = omega arith
unless_empty-Ends (b ∷ bs) m c h = h

module _ (origin proxy : Str) where
  rewrite_response-Ends :
      (h : Head) (c : Conn) → Ends (length c.input) (rewrite_response origin proxy h c)
  unfolding rewrite_response
  rewrite_response-Ends h c =
      let n = length c.input in
      Ends-step n (read_body h.is_chunked h.content_length) c _ (omega arith)
        (read_body-Ends h.is_chunked h.content_length)
        (elim [
          | none ↦ λ c1 h1. h1
          | some body ↦ λ c1 h1.
              Ends-step n (send_rewritten h body (rewrite_body origin proxy body)) c1 _ h1
                (send_rewritten-Ends h body (rewrite_body origin proxy body)) λ _ c2 h2. h2
        ])

  respond-Ends : (h : Head) (c : Conn) → Ends (length c.input) (respond origin proxy h c)
  unfolding respond
  respond-Ends h c = elim (Bool-cases (no_framing h)) [
    | inl rest ↦ rw rest (stream_rest-Ends h c)
    | inr framed ↦ rw framed (elim (Bool-cases (passes h)) [
      | inl pass ↦ rw pass (pass_response-Ends h c)
      | inr edit ↦ rw edit (rewrite_response-Ends h c)
    ])
  ]

  after_headers-Ends :
      (o : Option Head) (c : Conn) → Ends (length c.input) (after_headers origin proxy o c)
  unfolding after_headers
  after_headers-Ends none c = omega arith
  after_headers-Ends (some h) c =
      unless_empty-Ends h.header_buf (respond origin proxy h) c (respond-Ends h c)

  proxy_rounds-Ends :
      (f : ℕ) (c : Conn)
      → length c.input < f
      → Ends (length c.input) (proxy_rounds origin proxy f c)
  unfolding proxy_rounds
  proxy_rounds-Ends zero c lt = absurd (omega arith)
  proxy_rounds-Ends (suc f) c lt =
      HeadEnds-bind (length c.input) (read_headers (suc (length c.input)) no_head c) _
        (read_headers-HeadEnds (suc (length c.input)) no_head c (omega arith)) (λ c1 h1. h1)
        λ h c1 h1.
          let n = length c1.input in
          Ends-mono n (length c.input) _ (omega arith) (
            Ends-step n (after_headers origin proxy (some h)) c1 _ (omega arith)
              (after_headers-Ends (some h))
              (elim [
                | true ↦ λ c2 h2.
                    Ends-mono (length c2.input) n _ h2 (proxy_rounds-Ends f c2 (omega arith))
                | false ↦ λ c2 h2. h2
              ]))

  -- The task always ends: with fuel for one round more than there are bytes, no loop of it runs out,
  -- whatever the origin sends, the network does, and the client takes.
  pub proxy_response_with_rewrite-ne-no_fuel :
      (c : Conn) → (proxy_response_with_rewrite origin proxy c).0 ≢ no_fuel
  unfolding proxy_response_with_rewrite
  proxy_response_with_rewrite-ne-no_fuel c =
      Ends-ne-no_fuel (length c.input) (proxy_rounds origin proxy (suc (length c.input)) c)
        (proxy_rounds-Ends (suc (length c.input)) c (omega arith))
