-- ===== src/Text/Utf8.antt =====
-- UTF-8 as in the standard library: `str::as_bytes`, `str::from_utf8` and `String::from_utf8_lossy`.
pub mod Encoding
use dlna_proxy.Common.{
  ℕ, zero, suc, ◌+◌, ◌*◌, ◌/◌, ◌%◌, ◌-◌, true, false, Option, none, some, List, [], ◌∷◌, ◌++◌, ltb,
  ◌==◌, within, if◌then◌else◌,
}

-- the encoding of one character
unfoldable pub encode_char : ℕ → List ℕ
encode_char c =
    if ltb c 0x80
    then c ∷ []
    else if ltb c 0x800
    then (0xC0 + c / 64) ∷ (0x80 + c % 64) ∷ []
    else if ltb c 0x10000
    then (0xE0 + c / 4096) ∷ (0x80 + c / 64 % 64) ∷ (0x80 + c % 64) ∷ []
    else (0xF0 + c / 262144) ∷ (0x80 + c / 4096 % 64) ∷ (0x80 + c / 64 % 64) ∷ (0x80 + c % 64) ∷ []

unfoldable pub as_bytes : List ℕ → List ℕ
unfolding encode_char
as_bytes [] = []
as_bytes (c ∷ s) = encode_char c ++ as_bytes s

-- Between characters, or inside one: the bytes still wanted less one, the range of the next byte, and
-- the bits read so far.
pub data Decoder : Type 0 where
  ready : Decoder
  wanting : (more lo hi bits : ℕ) → Decoder

-- a first byte: `none` for a byte that begins no character
pub data Lead : Type 0 where
  char : ℕ → Lead
  partial : Decoder → Lead
  invalid : Lead

unfoldable pub lead : ℕ → Lead
lead b =
    if ltb b 0x80
    then char b
    else if within 0xC2 0xDF b
    then partial (wanting 0 0x80 0xBF (b - 0xC0))
    else if b == 0xE0
    then partial (wanting 1 0xA0 0xBF 0)
    else if b == 0xED
    then partial (wanting 1 0x80 0x9F 13)
    else if within 0xE1 0xEF b
    then partial (wanting 1 0x80 0xBF (b - 0xE0))
    else if b == 0xF0
    then partial (wanting 2 0x90 0xBF 0)
    else if within 0xF1 0xF3 b
    then partial (wanting 2 0x80 0xBF (b - 0xF0))
    else if b == 0xF4
    then partial (wanting 2 0x80 0x8F 4)
    else invalid

-- The characters decoded; `none` stands for each maximal invalid part.
begin_char : Lead → (Decoder → List (Option ℕ)) → List (Option ℕ)
begin_char (char c) k = some c ∷ k ready
begin_char (partial d) k = k d
begin_char invalid k = none ∷ k ready

continue_char : ℕ → ℕ → (Decoder → List (Option ℕ)) → List (Option ℕ)
continue_char zero bits k = some bits ∷ k ready
continue_char (suc more) bits k = k (wanting more 0x80 0xBF bits)

unfoldable pub decode : Decoder → List ℕ → List (Option ℕ)
unfolding lead begin_char continue_char
decode ready [] = []
decode (wanting more lo hi bits) [] = none ∷ []
decode ready (b ∷ s) = begin_char (lead b) (λ d. decode d s)
decode (wanting more lo hi bits) (b ∷ s) = elim (within lo hi b) [
  | true ↦ continue_char more (bits * 64 + (b - 0x80)) (λ d. decode d s)
  | false ↦ none ∷ begin_char (lead b) (λ d. decode d s)
]

replaced : List (Option ℕ) → List ℕ
replaced [] = []
replaced (none ∷ cs) = 0xFFFD ∷ replaced cs
replaced (some c ∷ cs) = c ∷ replaced cs

-- `String::from_utf8_lossy`
unfoldable pub from_utf8_lossy : List ℕ → List ℕ
unfolding decode replaced
from_utf8_lossy bs = replaced (decode ready bs)

all_chars : List (Option ℕ) → Option (List ℕ)
all_chars [] = some []
all_chars (none ∷ cs) = none
all_chars (some c ∷ cs) = elim (all_chars cs) [ none ↦ none | some s ↦ some (c ∷ s) ]

-- `str::from_utf8`
unfoldable pub from_utf8 : List ℕ → Option (List ℕ)
unfolding decode all_chars
from_utf8 bs = all_chars (decode ready bs)
