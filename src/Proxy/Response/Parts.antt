-- ===== src/Proxy/Response/Parts.antt =====
-- tcp_proxy.rs: the parts of a response in the origin's stream, its headers and its body, and what the header loop
-- leaves of the stream.
use dlna_proxy.Common.{
  ℕ, zero, suc, true, false, Option, none, some, [], ◌∷◌, ◌++◌, ◌⊎◌, inl, inr, ◌≡◌, length,
  Bool-cases,
}
use dlna_proxy.Text.{Bytes}
use dlna_proxy.Net.{Conn, take_line, drop_line, read_until_lf}
use dlna_proxy.Net.After.{After, After-bind, After-map, TookLine, read_until_lf-After}
use dlna_proxy.Proxy.Chunk.Panics.{ChunksTo}
use dlna_proxy.Proxy.Header.{Head, note_line, is_blank_line}
use dlna_proxy.Proxy.Response.{read_headers}

-- The stream `s` begins with header lines and a blank one, `rest` is behind them, and they make `h'` of `h`.
pub data HeadTo : Head → Bytes → Head → Bytes → Type 0 where
  blank_line :
      {h : Head} {s : Bytes}
      → is_blank_line (take_line s) ≡ true
      → HeadTo h s (note_line h (take_line s)) (drop_line s)
  header_line :
      {h h' : Head} {s rest : Bytes}
      → is_blank_line (take_line s) ≡ false
      → HeadTo (note_line h (take_line s)) (drop_line s) h' rest
      → HeadTo h s h' rest

-- The stream `s` begins with the body that the headers announce: in chunks, or with a length, which the end of the
-- stream may cut short.
pub data BodyTo (h : Head) (s rest : Bytes) : Type 0 where
  in_chunks : h.is_chunked ≡ true → ChunksTo s rest → BodyTo h s rest
  with_length :
      (n : ℕ) (body : Bytes)
      → h.is_chunked ≡ false
      → h.content_length ≡ some n
      → s ≡ body ++ rest
      → (length body ≡ n) ⊎ (rest ≡ [])
      → BodyTo h s rest

abbrev pub LeavesHead : Head → Bytes → Option Head → Bytes → Type 0
LeavesHead h s none rest = Unit
LeavesHead h s (some h') rest = HeadTo h s h' rest

more_header :
    (h : Head) (s line i : Bytes) (o : Option Head) (rest : Bytes)
    → is_blank_line line ≡ false
    → line ≡ take_line s
    → i ≡ drop_line s
    → LeavesHead (note_line h line) i o rest
    → LeavesHead h s o rest
more_header h s line i none rest more l d k = tt
more_header h s line i (some h') rest more l d k = header_line (rw l at more) (rw (l, d) at k)

at_blank :
    (h : Head) (s line i : Bytes)
    → is_blank_line line ≡ true
    → line ≡ take_line s
    → i ≡ drop_line s
    → HeadTo h s (note_line h line) i
at_blank h s line i blank l d = rw (l, d) (blank_line (rw l at blank))

pub read_headers-After :
    (P : Type 0) (f : ℕ) (h : Head) (c : Conn) → After (LeavesHead h c.input) P (read_headers f h c)
unfolding read_headers
read_headers-After P zero h c = tt
read_headers-After P (suc f) h c =
    let R : Option Head → Bytes → Type 0 = LeavesHead h c.input in
    After-bind (TookLine c.input) R P (read_until_lf c) _ (read_until_lf-After P c) (elim [
      | [] ↦ λ c1 _. tt
      | b ∷ more ↦ λ c1 (l, d). elim (Bool-cases (is_blank_line (b ∷ more))) [
        | inl blank ↦ rw blank (at_blank h c.input (b ∷ more) c1.input blank l d)
        | inr next ↦ rw next (
            After-map (LeavesHead (note_line h (b ∷ more)) c1.input) R P
              (read_headers f (note_line h (b ∷ more)) c1)
              (read_headers-After P f (note_line h (b ∷ more)) c1)
              λ o rest. more_header h c.input (b ∷ more) c1.input o rest next l d)
      ]
    ])
