-- ===== src/Proxy/Chunk/Coding.antt =====
-- `write_chunked_body` against `read_chunked_body`.
use dlna_proxy.Common.{
  ℕ, ◌≤◌, ◌<◌, List, [], ◌∷◌, ◌++◌, append_assoc, append-nil, ◌≡◌, refl, ap, ◌∙◌, arith, length,
  All, Lacks,
}
use dlna_proxy.Text.{Bytes, codes, cr, lf}
use dlna_proxy.Text.Number.{usize_max, to_hex}
use dlna_proxy.Text.Digits.{IsHex, to_hex-IsHex}
use dlna_proxy.Net.{Ending, eof, done}
use dlna_proxy.Net.Laws.{conn, write_all_lem}
use dlna_proxy.Proxy.Chunk.{parse_chunk_size, read_chunked_body, write_chunked_body, isize_max}
use dlna_proxy.Proxy.Chunk.Size.{parse_chunk_size-to_hex}
use dlna_proxy.Proxy.Chunk.Body.{
  Chunk, IsChunk, Last, IsLast, body_wire, read_chunked_body-body_wire,
}

-- The bytes that `write_chunked_body` writes.
abbrev pub chunked_wire : Bytes → Bytes
chunked_wire body =
    (to_hex (length body) ++ codes "\r\n") ++ (body ++ (codes "\r\n" ++ codes "0\r\n\r\n"))

pub write_chunked_body_lem :
    (body input : Bytes) (e : Ending) (rs : List ℕ) (out : Bytes)
    → write_chunked_body body (conn input e rs out)
      ≡ (done tt, conn input e rs (out ++ chunked_wire body))
unfolding write_chunked_body
write_chunked_body_lem body input e rs out =
    rw (write_all_lem, write_all_lem, write_all_lem, write_all_lem)
      (ap (λ o. (done tt, conn input e rs o)) (simp append_assoc))

hex-Lacks : (s : Bytes) → All IsHex s → Lacks lf (s ++ cr ∷ [])
hex-Lacks [] h = ((λ p. omega arith), tt)
hex-Lacks (c ∷ s) h = ((ground arith), hex-Lacks s h.1)

one_chunk : Bytes → Chunk
one_chunk body = record {
  size_text = to_hex (length body) ++ cr ∷ [];
  payload = body;
  close0 = cr;
  close1 = lf;
}

-- "0\r\n\r\n"
zero_chunk : Last
zero_chunk = record { size_text = b'0' ∷ cr ∷ []; trailer = cr ∷ [] }

one_chunk-IsChunk :
    (body : Bytes) → 0 < length body → length body ≤ usize_max → IsChunk (one_chunk body)
unfolding one_chunk
one_chunk-IsChunk body h fits = record {
  one_line = hex-Lacks (to_hex (length body)) (to_hex-IsHex (length body));
  size_is = rw append_assoc (parse_chunk_size-to_hex (length body) fits);
  not_empty = h;
}

zero_chunk-IsLast : IsLast zero_chunk
unfolding zero_chunk parse_chunk_size
zero_chunk-IsLast = record { one_line = omega arith; size_is = refl; trailer_line = omega arith }

one_chunk_wire :
    (body rest : Bytes)
    → body_wire (one_chunk body ∷ []) zero_chunk rest ≡ chunked_wire body ++ rest
unfolding one_chunk zero_chunk
one_chunk_wire body rest = simp append_assoc

-- What the proxy writes for a body that is not empty is read back as that body by its own reader, which
-- leaves what follows.
pub read_chunked_body-write_chunked_body :
    (body rest : Bytes) (max_size : ℕ) (e : Ending) (rs : List ℕ) (out : Bytes)
    → 0 < length body
    → length body ≤ max_size
    → max_size ≤ isize_max
    → read_chunked_body 2 max_size []
        (conn ((write_chunked_body body (conn [] eof [] [])).1.sent ++ rest) e rs out)
      ≡ (done body, conn rest e rs out)
unfolding one_chunk
read_chunked_body-write_chunked_body body rest max_size e rs out h fits small =
    rw (write_chunked_body_lem body [] eof [] [], ← one_chunk_wire body rest)
      (read_chunked_body-body_wire (one_chunk body ∷ []) zero_chunk 2 max_size [] rest e rs out
          (omega arith) small (omega (arith, ap length (append-nil body)))
          (one_chunk-IsChunk body h (omega arith), tt) zero_chunk-IsLast
        ∙ rw append-nil refl)

-- For an empty body the proxy writes two last chunks: a reader takes the first, and "0\r\n\r\n" is left in
-- front of what follows.
pub read_chunked_body-write_chunked_body_nil :
    (rest : Bytes) (max_size : ℕ) (e : Ending) (rs : List ℕ) (out : Bytes)
    → max_size ≤ isize_max
    → read_chunked_body 1 max_size []
        (conn ((write_chunked_body [] (conn [] eof [] [])).1.sent ++ rest) e rs out)
      ≡ (done [], conn (codes "0\r\n\r\n" ++ rest) e rs out)
unfolding zero_chunk to_hex
read_chunked_body-write_chunked_body_nil rest max_size e rs out small =
    rw (write_chunked_body_lem [] [] eof [] []) (
      read_chunked_body-body_wire [] zero_chunk 1 max_size [] (codes "0\r\n\r\n" ++ rest) e rs out
        (omega arith) small (omega arith) tt zero_chunk-IsLast)
