-- ===== src/Proxy/Response/Block.antt =====
-- Header blocks of text lines: their bytes, and what the header loop notes of them.
use dlna_proxy.Common.{
  ℕ, ◌≤◌, List, [], ◌∷◌, ◌++◌, append_assoc, ◌≢◌, inl, inr, ◌≡◌, refl, ap, ◌∙◌, arith, All,
  All-append, Lacks, Bool-cases,
}
use dlna_proxy.Text.{Bytes, Str, codes, cr, lf}
use dlna_proxy.Text.Ascii.{IsAscii}
use dlna_proxy.Text.Digits.{IsHex, to_decimal-IsHex}
use dlna_proxy.Text.Lines.{crlf_lines}
use dlna_proxy.Text.Number.{usize_max, to_decimal}
use dlna_proxy.Proxy.Header.{Head, no_head, note_line, is_content_length}
use dlna_proxy.Proxy.Header.Length.{
  length_line, updated_line, updated, length_line-IsAscii, ending, Agrees, Agrees-updated_line,
  Agrees-blank, updated_line_nil,
}
use dlna_proxy.Proxy.Response.Headers.{IsHeader, header_wire, head_of, header_buf-head_of}

-- a header line as text, without its CR LF
abbrev pub IsField : Str → Type 0
IsField l = IsAscii l × Lacks lf l × (l ≢ [])

-- the lines without their LF
abbrev pub with_cr : List Str → List Bytes
with_cr [] = []
with_cr (l ∷ ls) = (l ++ cr ∷ []) ∷ with_cr ls

-- the head of a block of text lines
abbrev pub text_head : List Str → Head
text_head ls = head_of no_head (with_cr ls) (cr ∷ [])

line_end : (l : Str) → (l ++ cr ∷ []) ++ lf ∷ [] ≡ l ++ ending
line_end l = append_assoc l (cr ∷ []) (lf ∷ [])

pub Agrees-head_of :
    (n : ℕ) (ls : List Str) (h h' : Head)
    → n ≤ usize_max
    → All IsField ls
    → Agrees n h h'
    → Agrees n (head_of h (with_cr ls) (cr ∷ [])) (head_of h' (with_cr (updated n ls)) (cr ∷ []))
Agrees-head_of n [] h h' fits fs g = Agrees-blank n h h' g
Agrees-head_of n (l ∷ ls) h h' fits (f, fs) g =
    Agrees-head_of n ls (note_line h ((l ++ cr ∷ []) ++ lf ∷ []))
      (note_line h' ((updated_line n l ++ cr ∷ []) ++ lf ∷ [])) fits fs
      (rw (line_end l, line_end (updated_line n l)) (Agrees-updated_line n l h h' fits f.0 g))

pub header_wire-with_cr :
    (ls : List Str) → header_wire (with_cr ls) (cr ∷ []) [] ≡ crlf_lines (ls ++ [] ∷ [])
header_wire-with_cr [] = refl
header_wire-with_cr (l ∷ ls) =
    rw (header_wire-with_cr ls) (append_assoc l (cr ∷ []) (lf ∷ crlf_lines (ls ++ [] ∷ [])))

pub updated-append : (n : ℕ) (ls : List Str) → updated n (ls ++ [] ∷ []) ≡ updated n ls ++ [] ∷ []
updated-append n [] = rw (updated_line_nil n)
updated-append n (l ∷ ls) = ap (◌∷◌ (updated_line n l)) (updated-append n ls)

digits-Lacks : (s : Str) → All IsHex s → Lacks lf s
digits-Lacks [] h = tt
digits-Lacks (c ∷ s) h = (ground arith, digits-Lacks s h.1)

length_line-IsField : (n : ℕ) → IsField (length_line n)
length_line-IsField n = (
  length_line-IsAscii n,
  All-append _ (codes "Content-Length: ") (to_decimal n) (omega arith)
      (digits-Lacks (to_decimal n) (to_decimal-IsHex n)),
  λ e. cc,
)

updated_line-IsField : (n : ℕ) (l : Str) → IsField l → IsField (updated_line n l)
updated_line-IsField n l f = elim (Bool-cases (is_content_length l)) [
  | inl found ↦ rw found (length_line-IsField n)
  | inr other ↦ rw other f
]

pub updated-IsField : (n : ℕ) (ls : List Str) → All IsField ls → All IsField (updated n ls)
updated-IsField n [] fs = tt
updated-IsField n (l ∷ ls) (f, fs) = (updated_line-IsField n l f, updated-IsField n ls fs)

snoc-ne-nil : (l : Bytes) → l ++ cr ∷ [] ≢ []
snoc-ne-nil [] = λ e. cc
snoc-ne-nil (x ∷ l) = λ e. cc

pub IsField-IsHeader : (ls : List Str) → All IsField ls → All IsHeader (with_cr ls)
IsField-IsHeader [] fs = tt
IsField-IsHeader ([] ∷ ls) (f, fs) = absurd (f.2 refl)
IsField-IsHeader ((c ∷ l) ∷ ls) (f, fs) = (
  (All-append _ (c ∷ l) (cr ∷ []) f.1 (omega arith), (λ e. cc), (λ e. snoc-ne-nil l cc)),
  IsField-IsHeader ls fs,
)

pub block-IsAscii : (ls : List Str) → All IsField ls → IsAscii (crlf_lines (ls ++ [] ∷ []))
block-IsAscii [] fs = omega arith
block-IsAscii (l ∷ ls) (f, fs) =
    All-append _ l (cr ∷ lf ∷ crlf_lines (ls ++ [] ∷ [])) f.0
      (omega arith, (omega arith, block-IsAscii ls fs))

pub block-Lacks : (ls : List Str) → All IsField ls → All (Lacks lf) (ls ++ [] ∷ [])
block-Lacks [] fs = (tt, tt)
block-Lacks (l ∷ ls) (f, fs) = (f.1, block-Lacks ls fs)

pub text_head-header_buf : (ls : List Str) → (text_head ls).header_buf ≡ crlf_lines (ls ++ [] ∷ [])
text_head-header_buf ls = header_buf-head_of (with_cr ls) (cr ∷ []) no_head ∙ header_wire-with_cr ls
