-- ===== src/Proxy/Response.antt =====
-- tcp_proxy.rs, `proxy_response_with_rewrite`: the loop over the responses of a connection.
pub mod Ends
pub mod Message
pub mod Headers
pub mod Bodies
pub mod Parts
pub mod Stream
pub mod Broken
pub mod Block
pub mod Client
pub mod Rewrite
pub mod Io
use dlna_proxy.Common.{
  ℕ, zero, suc, ◌*◌, Bool, true, false, not, ◌&&◌, ◌||◌, Option, none, some, [], ◌∷◌, ltb, ◌==◌,
  length, if◌then◌else◌,
}
use dlna_proxy.Text.{Bytes, Str}
use dlna_proxy.Text.Utf8.{as_bytes, from_utf8_lossy}
use dlna_proxy.Text.Replace.{replace}
use dlna_proxy.Net.{M, pure, spent, ◌>>=◌, ◌>>◌, read_exact, write_all, flush, copy}
use dlna_proxy.Proxy.Chunk.{
  read_line_bytes, forward, pass_through_chunked, allocate, read_chunked_body, write_chunked_body,
}
use dlna_proxy.Proxy.Header.{
  Head, no_head, note_line, is_blank_line, should_rewrite_content, update_content_length,
}

abbrev pub max_rewritable_body_size : ℕ
max_rewritable_body_size = 10 * 1024 * 1024

-- `break` at the end of the headers
abbrev pub break_if : Bool → Head → M (Option Head) → M (Option Head)
break_if true h more = pure (some h)
break_if false h more = more

-- The header loop. `none` stands for `return Ok(())` when the connection is closed.
unfoldable pub read_headers : ℕ → Head → M (Option Head)
read_headers zero h = spent
read_headers (suc f) h = do
  line ← read_line_bytes
  elim line [
    | [] ↦ pure none
    | b ∷ more ↦
        let h' = note_line h (b ∷ more) in
        break_if (is_blank_line (b ∷ more)) h' (read_headers f h')
  ]

-- `content_length.is_some_and(|len| len > MAX_REWRITABLE_BODY_SIZE)`
abbrev pub too_large : Option ℕ → Bool
too_large none = false
too_large (some len) = ltb max_rewritable_body_size len

-- The bound on the rounds of a loop that reads at least one byte each time.
abbrev pub with_fuel : {A : Type 0} → (ℕ → M A) → M A
with_fuel m c = m (suc (length c.input)) c

-- the body of a response that is not rewritten
unfoldable pub pass_through : Bool → Option ℕ → M (Unit {0})
pass_through true len = with_fuel pass_through_chunked
pass_through false (some len) = forward len len
pass_through false none = pure tt

-- `vec![0u8; len]` and `read_exact`
read_fixed_body : ℕ → M Bytes
read_fixed_body len = do allocate len; read_exact len

-- the body of a response that is rewritten; the case with neither framing was handled before
unfoldable pub read_body : Bool → Option ℕ → M (Option Bytes)
unfolding read_fixed_body
read_body true len = do
  body ← with_fuel (λ f. read_chunked_body f max_rewritable_body_size [])
  pure (some body)
read_body false (some len) = do body ← read_fixed_body len; pure (some body)
read_body false none = pure none

abbrev pub is_none : Option ℕ → Bool
is_none none = true
is_none (some _) = false

-- `updated_headers.as_bytes()`
unfoldable pub updated_headers : Head → ℕ → ℕ → Bytes
updated_headers h old_length new_length =
    let headers_str = from_utf8_lossy h.header_buf in
    as_bytes (
      if not (is_none h.content_length) && not (new_length == old_length)
      then update_content_length headers_str new_length
      else headers_str)

-- `body_str.replace(origin_url_base, proxy_url_base)` on the lossy text of the body, as bytes
unfoldable pub rewrite_body : Str → Str → Bytes → Bytes
rewrite_body origin_url_base proxy_url_base body =
    as_bytes (replace (from_utf8_lossy body) origin_url_base proxy_url_base)

unfoldable pub send_body : Bool → Bytes → M (Unit {0})
send_body true = write_chunked_body
send_body false = write_all

-- the end of the loop's body: send what was rewritten
unfoldable pub send_rewritten : Head → Bytes → Bytes → M (Unit {0})
send_rewritten h body rewritten_bytes = do
  write_all (updated_headers h (length body) (length rewritten_bytes))
  send_body h.is_chunked rewritten_bytes
  flush

-- neither Content-Length nor chunked
unfoldable pub no_framing : Head → Bool
no_framing h = not h.is_chunked && is_none h.content_length

-- not text, or too large to be held
unfoldable pub passes : Head → Bool
passes h = not (should_rewrite_content (from_utf8_lossy h.header_buf)) || too_large h.content_length

-- With no framing the rest of the stream is the body.
unfoldable pub stream_rest : Head → M Bool
stream_rest h = do write_all h.header_buf; flush; copy; pure false

-- The body is passed on as it is.
unfoldable pub pass_response : Head → M Bool
pass_response h = do
  write_all h.header_buf
  pass_through h.is_chunked h.content_length
  flush
  pure true

-- `if header_buf.is_empty()`
abbrev pub unless_empty : Bytes → M Bool → M Bool
unless_empty [] m = pure false
unless_empty (b ∷ bs) m = m

module _ (origin_url_base proxy_url_base : Str) where
  -- The body is read whole, and rewritten.
  unfoldable pub rewrite_response : Head → M Bool
  rewrite_response h = do
    read ← read_body h.is_chunked h.content_length
    elim read [
      | none ↦ pure true
      | some body ↦ do
        send_rewritten h body (rewrite_body origin_url_base proxy_url_base body)
        pure true
    ]

  -- One response behind its header block: `true` to go on with the next one.
  unfoldable pub respond : Head → M Bool
  respond h =
      if no_framing h
      then stream_rest h
      else if passes h
      then pass_response h
      else rewrite_response h

  pub after_headers : Option Head → M Bool
  after_headers none = pure false
  after_headers (some h) = unless_empty h.header_buf (respond h)

  -- A round reads a header line of at least one byte, or returns.
  unfoldable pub proxy_rounds : ℕ → M (Unit {0})
  unfolding after_headers
  proxy_rounds zero = spent
  proxy_rounds (suc f) = do
    head ← with_fuel (λ f. read_headers f no_head)
    again ← after_headers head
    elim again [ true ↦ proxy_rounds f | false ↦ pure tt ]

  unfoldable pub proxy_response_with_rewrite : M (Unit {0})
  unfolding proxy_rounds
  proxy_response_with_rewrite = with_fuel proxy_rounds
