-- ===== src/Text/Lines.antt =====
-- `lines` takes a text of lines that end in CR LF apart again.
use dlna_proxy.Common.{
  ℕ, false, List, [], ◌∷◌, ◌++◌, append_assoc, append-nil, ◌≡◌, refl, arith, ◌==◌, ◌∙◌, ap, All,
  Lacks,
}
use dlna_proxy.Text.{Str, cr, lf, strip_cr, lines, lines_onto}

abbrev pub crlf_lines : List Str → Str
crlf_lines [] = []
crlf_lines (l ∷ ls) = l ++ cr ∷ lf ∷ crlf_lines ls

strip_cr-append : (l : Str) → strip_cr (l ++ cr ∷ []) ≡ l
unfolding strip_cr
strip_cr-append [] = refl
strip_cr-append (c ∷ []) = refl
strip_cr-append (c ∷ d ∷ l) = ap (◌∷◌ c) (strip_cr-append (d ∷ l))

lines_onto_step :
    (cur : Str) (c : ℕ) (s : Str)
    → (c == lf) ≡ false
    → lines_onto cur (c ∷ s) ≡ lines_onto (cur ++ c ∷ []) s
unfolding lines_onto
lines_onto_step [] c s h = ground arith
lines_onto_step (x ∷ cur) c s h = ground arith

lines_onto_end : (cur : Str) (s : Str) → lines_onto cur (lf ∷ s) ≡ strip_cr cur ∷ lines_onto [] s
unfolding lines_onto
lines_onto_end [] s = refl
lines_onto_end (x ∷ cur) s = refl

lines_onto-line :
    (cur l rest : Str)
    → Lacks lf l
    → lines_onto cur (l ++ cr ∷ lf ∷ rest) ≡ (cur ++ l) ∷ lines_onto [] rest
lines_onto-line cur [] rest h =
    lines_onto_step cur cr (lf ∷ rest) refl
    ∙ lines_onto_end (cur ++ cr ∷ []) rest
    ∙ rw (strip_cr-append, append-nil)
lines_onto-line cur (c ∷ l) rest h =
    lines_onto_step cur c (l ++ cr ∷ lf ∷ rest) (ground arith)
    ∙ lines_onto-line (cur ++ c ∷ []) l rest h.1
    ∙ rw append_assoc

pub lines-crlf_lines : (ls : List Str) → All (Lacks lf) ls → lines (crlf_lines ls) ≡ ls
unfolding lines
lines-crlf_lines [] h = unfold lines_onto in refl
lines-crlf_lines (l ∷ ls) h =
    lines_onto-line [] l (crlf_lines ls) h.0 ∙ ap (◌∷◌ l) (lines-crlf_lines ls h.1)
