-- ===== src/Text.antt =====
-- The parts of Rust's `str`, `String` and integer formatting that the program calls.
-- A `Str` is the list of its characters' code points; `as_bytes` gives its UTF-8 encoding.
pub mod Utf8
pub mod Ascii
pub mod Digits
pub mod Trim
pub mod Lines
pub mod Number
pub mod Replace
pub mod Split
pub mod Matches
pub mod Closed
use Prim.Native.Char.{code}
use Prim.Native.String.{String}
use dlna_proxy.Common.{
  ℕ, zero, suc, ◌+◌, Bool, true, false, ◌&&◌, ◌||◌, List, [], ◌∷◌, ◌++◌, ◌==◌, within, map,
  if◌then◌else◌,
}

abbrev pub Bytes : Type 0
Bytes = List ℕ

abbrev pub Str : Type 0
Str = List ℕ

-- the code points of a literal; these are its bytes too when it is ASCII
abbrev pub codes : String → List ℕ
codes String.[] = []
codes (String.◌∷◌ c s) = code c ∷ codes s

abbrev pub cr : ℕ
cr = 13

abbrev pub lf : ℕ
lf = 10

-- `[T]::eq`, `str::eq`
unfoldable pub equal : List ℕ → List ℕ → Bool
equal [] [] = true
equal [] (y ∷ ys) = false
equal (x ∷ xs) [] = false
equal (x ∷ xs) (y ∷ ys) = x == y && equal xs ys

unfoldable pub starts_with : Str → Str → Bool
starts_with s [] = true
starts_with [] (p ∷ ps) = false
starts_with (c ∷ s) (p ∷ ps) = c == p && starts_with s ps

unfoldable pub contains : Str → Str → Bool
unfolding starts_with
contains [] p = starts_with [] p
contains (c ∷ s) p = starts_with (c ∷ s) p || contains s p

-- `s.split(c)`: always at least one part
split_onto : ℕ → Str → Str → List Str
split_onto sep cur [] = cur ∷ []
split_onto sep cur (c ∷ s) = elim (c == sep) [
  | true ↦ cur ∷ split_onto sep [] s
  | false ↦ split_onto sep (cur ++ c ∷ []) s
]

unfoldable pub split : Str → ℕ → List Str
unfolding split_onto
split s sep = split_onto sep [] s

-- `line.strip_suffix('\r')`, or the line itself
unfoldable pub strip_cr : Str → Str
strip_cr [] = []
strip_cr (c ∷ []) = if c == cr then [] else c ∷ []
strip_cr (c ∷ d ∷ s) = c ∷ strip_cr (d ∷ s)

-- `s.lines()`: a line ends at LF, and CR before that LF is dropped; an unterminated rest is kept whole
unfoldable pub lines_onto : Str → Str → List Str
unfolding strip_cr
lines_onto [] [] = []
lines_onto (x ∷ cur) [] = (x ∷ cur) ∷ []
lines_onto cur (c ∷ s) = elim (c == lf) [
  | true ↦ strip_cr cur ∷ lines_onto [] s
  | false ↦ lines_onto (cur ++ c ∷ []) s
]

unfoldable pub lines : Str → List Str
unfolding lines_onto
lines = lines_onto []

-- `char::is_whitespace`: the Unicode property White_Space
unfoldable pub is_whitespace : ℕ → Bool
is_whitespace c =
    within 9 13 c
    || c == b' '
    || c == 0x85
    || c == 0xA0
    || c == 0x1680
    || within 0x2000 0x200A c
    || within 0x2028 0x2029 c
    || c == 0x202F
    || c == 0x205F
    || c == 0x3000

trim_start : Str → Str
trim_start [] = []
trim_start (c ∷ s) = if is_whitespace c then trim_start s else c ∷ s

keep_char : ℕ → Str → Str
keep_char c [] = if is_whitespace c then [] else c ∷ []
keep_char c (d ∷ s) = c ∷ d ∷ s

trim_end : Str → Str
trim_end [] = []
trim_end (c ∷ s) = keep_char c (trim_end s)

unfoldable pub trim : Str → Str
unfolding is_whitespace trim_start keep_char trim_end
trim s = trim_end (trim_start s)

-- `char::to_lowercase`. Beyond ASCII, U+0130 and U+212A alone have a lower case that holds an ASCII
-- letter. The others are kept as they are: the program only looks for ASCII text in the result.
lower_char : ℕ → Str
lower_char c =
    if within b'A' b'Z' c
    then (c + 32) ∷ []
    else if c == 0x130
    then b'i' ∷ 0x307 ∷ []
    else if c == 0x212A
    then b'k' ∷ []
    else c ∷ []

unfoldable pub to_lowercase : Str → Str
unfolding lower_char
to_lowercase [] = []
to_lowercase (c ∷ s) = lower_char c ++ to_lowercase s
