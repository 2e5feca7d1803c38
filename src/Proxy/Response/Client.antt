-- ===== src/Proxy/Response/Client.antt =====
-- A client of the proxy: what it reads of the headers of a rewritten response.
use dlna_proxy.Common.{
  ℕ, suc, ◌≤◌, ◌<◌, none, some, List, [], ◌∷◌, ◌++◌, inl, inr, ◌≡◌, refl, ap, arith, ◌==◌, ==_iff,
  length, All, Bool-cases, if◌then◌else◌,
}
use dlna_proxy.Text.{Bytes, Str, cr}
use dlna_proxy.Text.Ascii.{from_utf8_lossy-ascii, as_bytes-ascii}
use dlna_proxy.Text.Lines.{crlf_lines}
use dlna_proxy.Text.Number.{usize_max}
use dlna_proxy.Net.{Ending, done}
use dlna_proxy.Net.Laws.{conn}
use dlna_proxy.Proxy.Header.{Head, no_head}
use dlna_proxy.Proxy.Header.Length.{updated, update_content_length-crlf_lines, Agrees}
use dlna_proxy.Proxy.Response.{read_headers, updated_headers}
use dlna_proxy.Proxy.Response.Headers.{header_wire, read_headers-header_wire, header_wire-append}
use dlna_proxy.Proxy.Response.Block.{
  IsField, with_cr, text_head, IsField-IsHeader, Agrees-head_of, header_wire-with_cr,
  updated-append, updated-IsField, block-IsAscii, block-Lacks, text_head-header_buf,
}

-- the block that the proxy sends
updated_headers-text :
    (ls : List Str) (m n : ℕ)
    → n ≤ usize_max
    → All IsField ls
    → (text_head ls).content_length ≡ some m
    → updated_headers (text_head ls) m n ≡ (
        if n == m
        then header_wire (with_cr ls) (cr ∷ []) []
        else header_wire (with_cr (updated n ls)) (cr ∷ []) [])
unfolding updated_headers
updated_headers-text ls m n fits fs len =
    let old = block-IsAscii ls fs in
    let new = block-IsAscii (updated n ls) (updated-IsField n ls fs) in
    let block = from_utf8_lossy-ascii (crlf_lines (ls ++ [] ∷ [])) old in
    elim (Bool-cases (n == m)) [
      | inl same ↦
          rw (len, same, text_head-header_buf ls, block, header_wire-with_cr ls)
            (as_bytes-ascii _ old)
      | inr other ↦
          rw
            (
              len,
              other,
              text_head-header_buf ls,
              block,
              update_content_length-crlf_lines (ls ++ [] ∷ []) n (block-Lacks ls fs),
              updated-append n ls,
              header_wire-with_cr (updated n ls),
            )
            (as_bytes-ascii _ new)
    ]

-- With no length there is nothing to update.
pub updated_headers-chunked :
    (ls : List Str) (m n : ℕ)
    → All IsField ls
    → (text_head ls).content_length ≡ none
    → updated_headers (text_head ls) m n ≡ header_wire (with_cr ls) (cr ∷ []) []
unfolding updated_headers
updated_headers-chunked ls m n fs absent =
    let old = block-IsAscii ls fs in
    let block = from_utf8_lossy-ascii (crlf_lines (ls ++ [] ∷ [])) old in
    rw (absent, text_head-header_buf ls, block, header_wire-with_cr ls) (as_bytes-ascii _ old)

length-with_cr : (ls : List Str) → length (with_cr ls) ≡ length ls
length-with_cr [] = refl
length-with_cr (l ∷ ls) = ap suc (length-with_cr ls)

length-updated : (n : ℕ) (ls : List Str) → length (updated n ls) ≡ length ls
length-updated n [] = refl
length-updated n (l ∷ ls) = ap suc (length-updated n ls)

-- The header loop on a block of text lines.
pub read_headers-text :
    (ls : List Str) (f : ℕ) (body : Bytes) (e : Ending) (rs : List ℕ) (out : Bytes)
    → length ls < f
    → All IsField ls
    → read_headers f no_head (conn (header_wire (with_cr ls) (cr ∷ []) [] ++ body) e rs out)
      ≡ (done (some (text_head ls)), conn body e rs out)
read_headers-text ls f body e rs out enough fs =
    rw (header_wire-append (with_cr ls) (cr ∷ []) [] body) (
      read_headers-header_wire (with_cr ls) (cr ∷ []) f no_head body e rs out
        (omega (arith, length-with_cr ls)) (IsField-IsHeader ls fs) (inr refl))

-- what the header loop finds of the updated lines, when the old ones had a length
updated-head :
    (ls : List Str) (m n : ℕ)
    → n ≤ usize_max
    → All IsField ls
    → (text_head ls).content_length ≡ some m
    → ((text_head (updated n ls)).content_length ≡ some n)
      × ((text_head (updated n ls)).is_chunked ≡ (text_head ls).is_chunked)
updated-head ls m n fits fs len =
    let start : Agrees n no_head no_head = record {
      same_framing = refl;
      new_length = inr (refl, refl);
    } in
    let g = Agrees-head_of n ls no_head no_head fits fs start in
    let clash : ¬ ((text_head ls).content_length ≡ none) = λ unset. cc in
    (elim g.new_length [ inl is ↦ is | inr unset ↦ absurd (clash unset.0) ], g.same_framing)

-- The header block that the proxy sends for a body of `n` bytes in place of one of `m`, with header lines of
-- ASCII text that announced a length: a client that reads it with the same loop finds the length `n`, the same
-- transfer encoding as before, and then the body. So rewriting never leaves a Content-Length that is wrong.
pub read_headers-updated_headers :
    (ls : List Str) (m n f : ℕ) (body : Bytes) (e : Ending) (rs : List ℕ) (out : Bytes)
    → length ls < f
    → n ≤ usize_max
    → All IsField ls
    → (text_head ls).content_length ≡ some m
    → (h : Head) × (read_headers f no_head
          (conn (updated_headers (text_head ls) m n ++ body) e rs out)
        ≡ (done (some h), conn body e rs out))
      × (h.content_length ≡ some n)
      × (h.is_chunked ≡ (text_head ls).is_chunked)
read_headers-updated_headers ls m n f body e rs out enough fits fs len =
    elim (Bool-cases (n == m)) [
      | inl same ↦
          let equal : n ≡ m = (==_iff n m).0 same in
          (
            text_head ls,
            rw (updated_headers-text ls m n fits fs len, same)
                (read_headers-text ls f body e rs out enough fs),
            cc,
            refl,
          )
      | inr other ↦
          let (length_is, framing) = updated-head ls m n fits fs len in
          (
            text_head (updated n ls),
            rw (updated_headers-text ls m n fits fs len, other)
                (read_headers-text (updated n ls) f body e rs out
                  (omega (arith, length-updated n ls)) (updated-IsField n ls fs)),
            length_is,
            framing,
          )
    ]
