-- ===== src/Proxy/Response/Io/Programs.antt =====
-- Every function of the response task is made of those calls.
use dlna_proxy.Common.{
  ℕ, zero, suc, Bool, true, false, Option, none, some, [], ◌∷◌, ◌++◌, arith, length, Bool-cases,
  inl, inr,
}
use dlna_proxy.Text.{Bytes, Str}
use dlna_proxy.Proxy.Chunk.{
  or_invalid, allocate_if, limit_check, parse_chunk_size, exceeds, capacity_overflow,
  pass_through_chunked, read_chunked_body, write_chunked_body,
}
use dlna_proxy.Proxy.Header.{Head, no_head, note_line, is_blank_line}
use dlna_proxy.Proxy.Response.{
  read_headers, break_if, pass_through, read_fixed_body, read_body, send_body, send_rewritten,
  rewrite_body, stream_rest, pass_response, rewrite_response, respond, unless_empty, after_headers,
  proxy_rounds, proxy_response_with_rewrite, no_framing, passes,
}
use dlna_proxy.Proxy.Response.Io.{
  Io, returns, fails, panics, exhausts, reads_line, reads_exact, writes, copies, forwards, binds,
  sized, binds_Bytes, binds_ℕ, binds_Bool, binds_Option,
}
use dlna_proxy.Net.{M}
use dlna_proxy.Proxy.Response.{max_rewritable_body_size}

or_invalid-Io : (o : Option ℕ) → Io ℕ (or_invalid o)
or_invalid-Io none = fails _
or_invalid-Io (some n) = returns n

allocate_if-Io : (b : Bool) → Io (Unit {0}) (allocate_if b)
allocate_if-Io true = panics
allocate_if-Io false = returns tt

limit_check-Io : (b : Bool) → Io (Unit {0}) (limit_check b)
limit_check-Io true = fails _
limit_check-Io false = returns tt

pass_through_chunked-Io : (f : ℕ) → Io (Unit {0}) (pass_through_chunked f)
unfolding pass_through_chunked
pass_through_chunked-Io zero = exhausts
pass_through_chunked-Io (suc f) = binds_Bytes _ reads_line (returns tt) λ b more.
    binds (writes (b ∷ more)) λ _.
      binds_ℕ _ (or_invalid-Io (parse_chunk_size (b ∷ more))) (binds reads_line writes) λ k.
        binds (forwards (suc k) (suc k) (omega arith))
          λ _. binds (reads_exact 2) λ crlf. binds (writes crlf) λ _. pass_through_chunked-Io f

read_chunked_body-Io :
    (f max_size : ℕ) (body : Bytes) → Io Bytes (read_chunked_body f max_size body)
unfolding read_chunked_body
read_chunked_body-Io zero max_size body = exhausts
read_chunked_body-Io (suc f) max_size body = binds_Bytes _ reads_line (returns body) λ b more.
    binds_ℕ _ (or_invalid-Io (parse_chunk_size (b ∷ more)))
      (binds reads_line λ trailer. returns body)
      λ k. binds (limit_check-Io (exceeds max_size (length body) (suc k))) λ _.
        binds (allocate_if-Io (capacity_overflow (suc k))) λ _.
          binds (reads_exact (suc k))
            λ chunk. binds (reads_exact 2) λ crlf. read_chunked_body-Io f max_size (body ++ chunk)

write_chunked_body-Io : (body : Bytes) → Io (Unit {0}) (write_chunked_body body)
unfolding write_chunked_body
write_chunked_body-Io body =
    binds (writes _) λ _. binds (writes body) λ _. binds (writes _) λ _. writes _

break_if-Io :
    (b : Bool) (h : Head) {m : M (Option Head)}
    → Io (Option Head) m
    → Io (Option Head) (break_if b h m)
break_if-Io true h more = returns (some h)
break_if-Io false h more = more

read_headers-Io : (f : ℕ) (h : Head) → Io (Option Head) (read_headers f h)
unfolding read_headers
read_headers-Io zero h = exhausts
read_headers-Io (suc f) h = binds_Bytes _ reads_line (returns none) λ b more.
    break_if-Io (is_blank_line (b ∷ more)) (note_line h (b ∷ more))
      (read_headers-Io f (note_line h (b ∷ more)))

pass_through-Io : (chunked : Bool) (len : Option ℕ) → Io (Unit {0}) (pass_through chunked len)
unfolding pass_through
pass_through-Io true len = sized pass_through_chunked-Io
pass_through-Io false (some len) = forwards len len (omega arith)
pass_through-Io false none = returns tt

read_fixed_body-Io : (len : ℕ) → Io Bytes (read_fixed_body len)
unfolding read_fixed_body
read_fixed_body-Io len = binds (allocate_if-Io (capacity_overflow len)) λ _. reads_exact len

read_body-Io : (chunked : Bool) (len : Option ℕ) → Io (Option Bytes) (read_body chunked len)
unfolding read_body
read_body-Io true len =
    binds (sized λ f. read_chunked_body-Io f max_rewritable_body_size [])
      λ body. returns (some body)
read_body-Io false (some len) = binds (read_fixed_body-Io len) λ body. returns (some body)
read_body-Io false none = returns none

send_body-Io : (chunked : Bool) (body : Bytes) → Io (Unit {0}) (send_body chunked body)
unfolding send_body
send_body-Io true body = write_chunked_body-Io body
send_body-Io false body = writes body

send_rewritten-Io : (h : Head) (body new : Bytes) → Io (Unit {0}) (send_rewritten h body new)
unfolding send_rewritten
send_rewritten-Io h body new =
    binds (writes _) λ _. binds (send_body-Io h.is_chunked new) λ _. returns tt

stream_rest-Io : (h : Head) → Io Bool (stream_rest h)
unfolding stream_rest
stream_rest-Io h =
    binds (writes h.header_buf) λ _. binds (returns tt) λ _. binds copies λ _. returns false

pass_response-Io : (h : Head) → Io Bool (pass_response h)
unfolding pass_response
pass_response-Io h = binds (writes h.header_buf) λ _.
    binds (pass_through-Io h.is_chunked h.content_length) λ _. binds (returns tt) λ _. returns true

module _ (origin proxy : Str) where
  rewrite_response-Io : (h : Head) → Io Bool (rewrite_response origin proxy h)
  unfolding rewrite_response
  rewrite_response-Io h =
      binds_Option _ (read_body-Io h.is_chunked h.content_length) (returns true)
        λ body. binds (send_rewritten-Io h body (rewrite_body origin proxy body)) λ _. returns true

  respond-Io : (h : Head) → Io Bool (respond origin proxy h)
  unfolding respond
  respond-Io h = elim (Bool-cases (no_framing h)) [
    | inl bare ↦ rw bare (stream_rest-Io h)
    | inr framed ↦ elim (Bool-cases (passes h)) [
      | inl pass ↦ rw (framed, pass) (pass_response-Io h)
      | inr edit ↦ rw (framed, edit) (rewrite_response-Io h)
    ]
  ]

  unless_empty-Io : (bs : Bytes) (h : Head) → Io Bool (unless_empty bs (respond origin proxy h))
  unless_empty-Io [] h = returns false
  unless_empty-Io (b ∷ bs) h = respond-Io h

  after_headers-Io : (o : Option Head) → Io Bool (after_headers origin proxy o)
  unfolding after_headers
  after_headers-Io none = returns false
  after_headers-Io (some h) = unless_empty-Io h.header_buf h

  proxy_rounds-Io : (f : ℕ) → Io (Unit {0}) (proxy_rounds origin proxy f)
  unfolding proxy_rounds
  proxy_rounds-Io zero = exhausts
  proxy_rounds-Io (suc f) =
      binds (sized λ n. read_headers-Io n no_head)
        λ head. binds_Bool _ (after_headers-Io head) (proxy_rounds-Io f) (returns tt)

  pub proxy_response_with_rewrite-Io : Io (Unit {0}) (proxy_response_with_rewrite origin proxy)
  unfolding proxy_response_with_rewrite
  proxy_response_with_rewrite-Io = sized proxy_rounds-Io
