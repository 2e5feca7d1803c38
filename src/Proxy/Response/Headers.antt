-- ===== src/Proxy/Response/Headers.antt =====
-- The header loop over a header block.
use dlna_proxy.Common.{
  ℕ, zero, suc, ◌+◌, ◌<◌, true, false, none, some, List, [], ◌∷◌, ◌++◌, append_assoc, ◌≢◌, ◌⊎◌, inl,
  inr, ◌≡◌, refl, ◌∙◌, arith, length, length-append, All, Lacks,
}
use dlna_proxy.Text.{Bytes, cr, lf, equal}
use dlna_proxy.Net.{Ending, eof, done, read_until_lf}
use dlna_proxy.Net.Laws.{conn, read_until_lf-line, read_until_lf_end}
use dlna_proxy.Proxy.Header.{Head, note_line, is_blank_line}
use dlna_proxy.Proxy.Response.{read_headers}

-- A header line without its LF: neither empty nor a lone CR. The block ends with one that is either.
abbrev pub IsHeader : Bytes → Type 0
IsHeader l = Lacks lf l × (l ≢ []) × (l ≢ cr ∷ [])

abbrev pub IsBlank : Bytes → Type 0
IsBlank l = (l ≡ []) ⊎ (l ≡ cr ∷ [])

-- the bytes of a header block, in front of `rest`
abbrev pub header_wire : List Bytes → Bytes → Bytes → Bytes
header_wire [] blank rest = blank ++ lf ∷ rest
header_wire (l ∷ ls) blank rest = l ++ lf ∷ header_wire ls blank rest

-- what the loop has noted behind the lines and the blank line
abbrev pub head_of : Head → List Bytes → Bytes → Head
head_of h [] blank = note_line h (blank ++ lf ∷ [])
head_of h (l ∷ ls) blank = head_of (note_line h (l ++ lf ∷ [])) ls blank

is_blank_line-IsBlank : (l : Bytes) → IsBlank l → is_blank_line (l ++ lf ∷ []) ≡ true
unfolding is_blank_line
is_blank_line-IsBlank l (inl e) = rw e refl
is_blank_line-IsBlank l (inr e) = rw e refl

is_blank_line-IsHeader : (l : Bytes) → IsHeader l → is_blank_line (l ++ lf ∷ []) ≡ false
unfolding is_blank_line equal
is_blank_line-IsHeader [] h = absurd (h.1 refl)
is_blank_line-IsHeader (a ∷ []) h = ground (arith, h.2)
is_blank_line-IsHeader (a ∷ b ∷ []) h = ground arith
is_blank_line-IsHeader (a ∷ b ∷ c ∷ l) h = ground arith

blank_Lacks : (l : Bytes) → IsBlank l → Lacks lf l
blank_Lacks l (inl e) = rw e tt
blank_Lacks l (inr e) = rw e (omega arith)

-- One round at a line `b ∷ bs`.
read_headers_last :
    (f b : ℕ) (bs input rest : Bytes) (h : Head) (e : Ending) (rs : List ℕ) (out : Bytes)
    → read_until_lf (conn input e rs out) ≡ (done (b ∷ bs), conn rest e rs out)
    → is_blank_line (b ∷ bs) ≡ true
    → read_headers (suc f) h (conn input e rs out)
      ≡ (done (some (note_line h (b ∷ bs))), conn rest e rs out)
unfolding read_headers
read_headers_last f b bs input rest h e rs out line blank = rw (line, blank)

read_headers_more :
    (f b : ℕ) (bs input rest : Bytes) (h : Head) (e : Ending) (rs : List ℕ) (out : Bytes)
    → read_until_lf (conn input e rs out) ≡ (done (b ∷ bs), conn rest e rs out)
    → is_blank_line (b ∷ bs) ≡ false
    → read_headers (suc f) h (conn input e rs out)
      ≡ read_headers f (note_line h (b ∷ bs)) (conn rest e rs out)
unfolding read_headers
read_headers_more f b bs input rest h e rs out line blank = rw (line, blank)

line_cons : (l : Bytes) → (b : ℕ) × (bs : Bytes) × (l ++ lf ∷ [] ≡ b ∷ bs)
line_cons [] = (lf, [], refl)
line_cons (b ∷ l) = (b, l ++ lf ∷ [], refl)

pub read_headers-header_wire :
    (ls : List Bytes) (blank : Bytes) (f : ℕ) (h : Head) (rest : Bytes) (e : Ending) (rs : List ℕ)
    (out : Bytes)
    → length ls < f
    → All IsHeader ls
    → IsBlank blank
    → read_headers f h (conn (header_wire ls blank rest) e rs out)
      ≡ (done (some (head_of h ls blank)), conn rest e rs out)
read_headers-header_wire [] blank zero h rest e rs out lt hs hb = absurd (omega arith)
read_headers-header_wire [] blank (suc f) h rest e rs out lt hs hb =
    let (b, bs, line) = line_cons blank in
    rw line (
      read_headers_last f b bs _ rest h e rs out
        (rw line at (read_until_lf-line e rs out blank rest (blank_Lacks blank hb)))
        (rw line at (is_blank_line-IsBlank blank hb)))
read_headers-header_wire (l ∷ ls) blank zero h rest e rs out lt hs hb = absurd (omega arith)
read_headers-header_wire (l ∷ ls) blank (suc f) h rest e rs out lt (hl, hs) hb =
    let (b, bs, line) = line_cons l in
    let more = header_wire ls blank rest in
    read_headers_more f b bs _ more h e rs out
      (rw line at (read_until_lf-line e rs out l more hl.0))
      (rw line at (is_blank_line-IsHeader l hl))
    ∙ rw (← line) (
        read_headers-header_wire ls blank f (note_line h (l ++ lf ∷ [])) rest e rs out (omega arith)
          hs hb)

-- The loop keeps every byte of the block.
pub header_buf-head_of :
    (ls : List Bytes) (blank : Bytes) (h : Head)
    → (head_of h ls blank).header_buf ≡ h.header_buf ++ header_wire ls blank []
unfolding note_line
header_buf-head_of [] blank h = refl
header_buf-head_of (l ∷ ls) blank h =
    header_buf-head_of ls blank (note_line h (l ++ lf ∷ [])) ∙ simp append_assoc

-- At the end of the stream there is no header block.
pub read_headers_end :
    (f : ℕ) (h : Head) (rs : List ℕ) (out : Bytes)
    → read_headers (suc f) h (conn [] eof rs out) ≡ (done none, conn [] eof rs out)
unfolding read_headers
read_headers_end f h rs out = rw read_until_lf_end

pub length-header_wire :
    (ls : List Bytes) (blank rest : Bytes)
    → length ls + length rest < length (header_wire ls blank rest)
length-header_wire [] blank rest = omega (arith, length-append blank (lf ∷ rest))
length-header_wire (l ∷ ls) blank rest =
    omega
      (arith, length-header_wire ls blank rest, length-append l (lf ∷ header_wire ls blank rest))

pub header_wire-append :
    (ls : List Bytes) (blank x rest : Bytes)
    → header_wire ls blank x ++ rest ≡ header_wire ls blank (x ++ rest)
header_wire-append [] blank x rest = append_assoc blank (lf ∷ x) rest
header_wire-append (l ∷ ls) blank x rest =
    append_assoc l (lf ∷ header_wire ls blank x) rest ∙ rw (header_wire-append ls blank x rest)
