-- ===== src/Proxy/Header/Length.antt =====
-- `update_content_length` against the header loop: the line that it writes is noted with the new length, and
-- the other lines are kept.
use dlna_proxy.Common.{
  ℕ, ◌≤◌, Bool, true, false, ◌&&◌, Option, none, some, List, [], ◌∷◌, ◌++◌, append_assoc,
  append-nil, ◌⊎◌, inl, inr, ◌≡◌, refl, sym, ◌∙◌, arith, All, All-append, Lacks, Bool-cases,
  if◌then◌else◌, get_elem?,
}
use dlna_proxy.Text.{Str, codes, cr, lf, to_lowercase, starts_with, split, contains}
use dlna_proxy.Text.Ascii.{IsAscii, from_utf8_lossy-ascii}
use dlna_proxy.Text.Digits.{
  IsHex, to_decimal-IsHex, to_decimal-ne-nil, IsHex-IsAscii, from_str_radix-to_decimal,
}
use dlna_proxy.Text.Lines.{crlf_lines, lines-crlf_lines}
use dlna_proxy.Text.Number.{usize_max, to_decimal}
use dlna_proxy.Text.Split.{to_lowercase-append, starts_with-cr, split_second}
use dlna_proxy.Text.Trim.{trim_value, IsHex-IsSolid}
use dlna_proxy.Proxy.Header.{
  Head, note_line, is_content_length, length_value, update_line, update_lines,
  update_content_length,
}

-- The line's end does not matter to the test.
is_content_length-crlf : (l : Str) → is_content_length (l ++ cr ∷ lf ∷ []) ≡ is_content_length l
unfolding is_content_length to_lowercase
is_content_length-crlf l =
    rw (to_lowercase-append l (cr ∷ lf ∷ []))
      (starts_with-cr (to_lowercase l) (codes "content-length:") (lf ∷ []) (omega arith))

abbrev pub length_line : ℕ → Str
length_line n = codes "Content-Length: " ++ to_decimal n

digits-Lacks : (s : Str) → All IsHex s → Lacks b':' (s ++ cr ∷ lf ∷ [])
digits-Lacks [] h = omega arith
digits-Lacks (c ∷ s) h = (ground arith, digits-Lacks s h.1)

split-length_line :
    (n : ℕ)
    → split (codes "Content-Length: " ++ (to_decimal n ++ cr ∷ lf ∷ [])) b':'
      ≡ codes "Content-Length" ∷ (b' ' ∷ (to_decimal n ++ cr ∷ lf ∷ [])) ∷ []
split-length_line n =
    split_second b':' (codes "Content-Length") (b' ' ∷ (to_decimal n ++ cr ∷ lf ∷ [])) (omega arith)
      ((λ e. omega arith), digits-Lacks _ (to_decimal-IsHex n))

length_value-length_line :
    (n : ℕ) (old : Option ℕ)
    → n ≤ usize_max
    → length_value
        (get_elem? (split (codes "Content-Length: " ++ (to_decimal n ++ cr ∷ lf ∷ [])) b':') 1)
        old
      ≡ some n
unfolding length_value
length_value-length_line n old fits =
    rw
      (
        split-length_line n,
        trim_value (to_decimal n) (IsHex-IsSolid _ (to_decimal-IsHex n)) (to_decimal-ne-nil n),
      )
      (from_str_radix-to_decimal n fits)

-- a header line behind `update_content_length`
abbrev pub updated_line : ℕ → Str → Str
updated_line n l = if is_content_length l then length_line n else l

abbrev pub updated : ℕ → List Str → List Str
updated n [] = []
updated n (l ∷ ls) = updated_line n l ∷ updated n ls

update_line-updated_line : (n : ℕ) (l : Str) → update_line n l ≡ updated_line n l ++ cr ∷ lf ∷ []
unfolding update_line
update_line-updated_line n l = elim (Bool-cases (is_content_length l)) [
  | inl found ↦ rw found
  | inr other ↦ rw other
]

update_lines-updated :
    (n : ℕ) (result : Str) (ls : List Str)
    → update_lines n result ls ≡ result ++ crlf_lines (updated n ls)
unfolding update_lines
update_lines-updated n result [] = sym (append-nil result)
update_lines-updated n result (l ∷ ls) =
    update_lines-updated n (result ++ update_line n l) ls
    ∙ rw (update_line-updated_line n l) (simp append_assoc)

-- The whole block: each of its lines is updated, and keeps its end.
pub update_content_length-crlf_lines :
    (ls : List Str) (n : ℕ)
    → All (Lacks lf) ls
    → update_content_length (crlf_lines ls) n ≡ crlf_lines (updated n ls)
unfolding update_content_length
update_content_length-crlf_lines ls n h = rw (lines-crlf_lines ls h) (update_lines-updated n [] ls)

-- the test for chunks in the header loop
abbrev announces_chunks : Str → Bool
announces_chunks x =
    starts_with (to_lowercase x) (codes "transfer-encoding:")
    && contains (to_lowercase x) (codes "chunked")

note_line-content_length :
    (h : Head) (x : Str)
    → IsAscii x
    → (note_line h x).content_length ≡ (
        if is_content_length x
        then length_value (get_elem? (split x b':') 1) h.content_length
        else h.content_length)
unfolding note_line
note_line-content_length h x a = rw (from_utf8_lossy-ascii x a)

note_line-is_chunked :
    (h : Head) (x : Str)
    → IsAscii x
    → (note_line h x).is_chunked ≡ (if announces_chunks x then true else h.is_chunked)
unfolding note_line
note_line-is_chunked h x a = rw (from_utf8_lossy-ascii x a)

not_both :
    (t : Str)
    → starts_with t (codes "content-length:") ≡ true
    → starts_with t (codes "transfer-encoding:") ≡ false
unfolding starts_with
not_both [] h = refl
not_both (c ∷ t) h = ground arith

is_content_length-announces_chunks :
    (x : Str) → is_content_length x ≡ true → announces_chunks x ≡ false
unfolding is_content_length
is_content_length-announces_chunks x h = rw (not_both (to_lowercase x) h)

is_content_length-length_line : (n : ℕ) → is_content_length (length_line n ++ cr ∷ lf ∷ []) ≡ true
unfolding is_content_length to_lowercase starts_with
is_content_length-length_line n = refl

abbrev pub ending : Str
ending = cr ∷ lf ∷ []

pub length_line-IsAscii : (n : ℕ) → IsAscii (length_line n)
length_line-IsAscii n =
    All-append _ (codes "Content-Length: ") _ (omega arith) (IsHex-IsAscii _ (to_decimal-IsHex n))

pub ended-IsAscii : (l : Str) → IsAscii l → IsAscii (l ++ ending)
ended-IsAscii l a = All-append _ l _ a (omega arith)

-- What the header loop has noted of the updated lines, against the lines themselves: the same framing; and
-- the new length, unless no length was noted so far.
pub record Agrees (n : ℕ) (h h' : Head) : Type 0 where
  pub same_framing : h'.is_chunked ≡ h.is_chunked
  pub new_length :
      (h'.content_length ≡ some n) ⊎ ((h.content_length ≡ none) × (h'.content_length ≡ none))

-- a length line, and the line that it is replaced by
Agrees-length_line :
    (n : ℕ) (l : Str) (h h' : Head)
    → n ≤ usize_max
    → IsAscii l
    → is_content_length l ≡ true
    → Agrees n h h'
    → Agrees n (note_line h (l ++ ending)) (note_line h' (length_line n ++ ending))
Agrees-length_line n l h h' fits a found g =
    let new = length_line n ++ ending in
    let old_chunks =
      is_content_length-announces_chunks (l ++ ending) (is_content_length-crlf l ∙ found) in
    let new_chunks = is_content_length-announces_chunks new (is_content_length-length_line n) in
    record {
      same_framing =
          note_line-is_chunked h' new (ended-IsAscii (length_line n) (length_line-IsAscii n))
          ∙ rw (new_chunks, note_line-is_chunked h (l ++ ending) (ended-IsAscii l a), old_chunks)
              g.same_framing;
      new_length = inl (
          note_line-content_length h' new (ended-IsAscii (length_line n) (length_line-IsAscii n))
          ∙ rw (is_content_length-length_line n)
              (length_value-length_line n h'.content_length fits));
    }

-- any other line
Agrees-other :
    (n : ℕ) (l : Str) (h h' : Head)
    → IsAscii l
    → is_content_length l ≡ false
    → Agrees n h h'
    → Agrees n (note_line h (l ++ ending)) (note_line h' (l ++ ending))
Agrees-other n l h h' a other g =
    let x = l ++ ending in
    let ax = ended-IsAscii l a in
    let no : is_content_length x ≡ false = is_content_length-crlf l ∙ other in
    let cl : (h : Head) → (note_line h x).content_length ≡ h.content_length =
      λ h. note_line-content_length h x ax ∙ rw no in
    record {
      same_framing = rw (note_line-is_chunked h x ax, note_line-is_chunked h' x ax, g.same_framing);
      new_length = rw (cl h, cl h') g.new_length;
    }

pub Agrees-updated_line :
    (n : ℕ) (l : Str) (h h' : Head)
    → n ≤ usize_max
    → IsAscii l
    → Agrees n h h'
    → Agrees n (note_line h (l ++ ending)) (note_line h' (updated_line n l ++ ending))
Agrees-updated_line n l h h' fits a g = elim (Bool-cases (is_content_length l)) [
  | inl found ↦ rw found (Agrees-length_line n l h h' fits a found g)
  | inr other ↦ rw other (Agrees-other n l h h' a other g)
]

pub Agrees-blank :
    (n : ℕ) (h h' : Head) → Agrees n h h' → Agrees n (note_line h ending) (note_line h' ending)
unfolding is_content_length to_lowercase starts_with
Agrees-blank n h h' g = Agrees-other n [] h h' tt refl g

pub updated_line_nil : (n : ℕ) → updated_line n [] ≡ []
unfolding is_content_length to_lowercase starts_with
updated_line_nil n = refl
