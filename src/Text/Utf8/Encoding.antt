-- ===== src/Text/Utf8/Encoding.antt =====
-- UTF-8 there and back: the encoding of any text is decoded to that text.
use dlna_proxy.Common.{
  ℕ, ◌+◌, ◌*◌, ◌/◌, ◌%◌, ◌-◌, ◌≤◌, ◌<◌, ◌⊎◌, inl, inr, true, some, List, [], ◌∷◌, ◌++◌, ◌≡◌, refl,
  ap, ◌∙◌, arith, within, All,
}
use dlna_proxy.Text.Utf8.{
  encode_char, as_bytes, Decoder, ready, wanting, partial, lead, decode, continue_char, replaced,
  from_utf8_lossy,
}

-- a Unicode scalar value, which is what a Rust `char` holds
abbrev pub IsScalar : ℕ → Type 0
IsScalar c = (c < 0xD800) ⊎ ((0xE000 ≤ c) × (c < 0x110000))

-- a continuation byte within the range that is wanted
decode_continue :
    (more lo hi bits y : ℕ) (s : List ℕ)
    → lo ≤ 0x80 + y
    → 0x80 + y ≤ hi
    → decode (wanting more lo hi bits) ((0x80 + y) ∷ s)
      ≡ continue_char more (bits * 64 + y) (λ d. decode d s)
unfolding decode
decode_continue more lo hi bits y s a b =
    let inside : within lo hi (0x80 + y) ≡ true = ground arith in
    let value : bits * 64 + (0x80 + y - 0x80) ≡ bits * 64 + y = omega arith in
    rw (inside, decode, value)

decode-lead :
    (b : ℕ) (d : Decoder) (s : List ℕ) → lead b ≡ partial d → decode ready (b ∷ s) ≡ decode d s
unfolding decode
decode-lead b d s h = rw h

one_byte : (c : ℕ) (s : List ℕ) → c < 0x80 → decode ready (c ∷ s) ≡ some c ∷ decode ready s
unfolding decode lead
one_byte c s h = ground arith

lead_two : (x : ℕ) → 2 ≤ x → x < 32 → lead (0xC0 + x) ≡ partial (wanting 0 0x80 0xBF x)
unfolding lead
lead_two x a b = ground arith

two_bytes :
    (c : ℕ) (s : List ℕ)
    → 0x80 ≤ c
    → c < 0x800
    → decode ready ((0xC0 + c / 64) ∷ (0x80 + c % 64) ∷ s) ≡ some c ∷ decode ready s
unfolding continue_char
two_bytes c s a b =
    let value : c / 64 * 64 + c % 64 ≡ c = omega arith in
    decode-lead (0xC0 + c / 64) (wanting 0 0x80 0xBF (c / 64)) _
      (lead_two (c / 64) (omega arith) (omega arith))
    ∙ decode_continue 0 0x80 0xBF (c / 64) (c % 64) s (omega arith) (omega arith)
    ∙ rw value

-- The first byte of three, and the range that it leaves for the second.
lead_three :
    (x y : ℕ)
    → x < 16
    → y < 64
    → (0x800 ≤ x * 4096 + y * 64)
    → (x * 64 + y < 0x360) ⊎ (0x380 ≤ x * 64 + y)
    → (lo : ℕ) × (hi : ℕ) × (lead (0xE0 + x) ≡ partial (wanting 1 lo hi x))
      × (lo ≤ 0x80 + y)
      × (0x80 + y ≤ hi)
unfolding lead
lead_three x y a b small gap = elim (three_cases x a) [
  | inl zero_lead ↦ (0xA0, 0xBF, ground arith, omega arith, omega arith)
  | inr (inl surrogates) ↦ (0x80, 0x9F, ground arith, omega arith, ground arith)
  | inr (inr other) ↦ (0x80, 0xBF, ground arith, omega arith, omega arith)
]
  where
    three_cases : (x : ℕ) → x < 16 → (x ≡ 0) ⊎ ((x ≡ 13) ⊎ ((0 < x) × ((x < 13) ⊎ (13 < x))))
    three_cases x h = omega arith

three_bytes :
    (c : ℕ) (s : List ℕ)
    → 0x800 ≤ c
    → c < 0x10000
    → IsScalar c
    → decode ready ((0xE0 + c / 4096) ∷ (0x80 + c / 64 % 64) ∷ (0x80 + c % 64) ∷ s)
      ≡ some c ∷ decode ready s
unfolding continue_char
three_bytes c s a b scalar =
    let value : (c / 4096 * 64 + c / 64 % 64) * 64 + c % 64 ≡ c = omega arith in
    let (lo, hi, first, above, below) =
      lead_three (c / 4096) (c / 64 % 64) (omega arith) (omega arith) (omega arith) (omega arith) in
    decode-lead (0xE0 + c / 4096) (wanting 1 lo hi (c / 4096)) _ first
    ∙ decode_continue 1 lo hi (c / 4096) (c / 64 % 64) _ above below
    ∙ decode_continue 0 0x80 0xBF (c / 4096 * 64 + c / 64 % 64) (c % 64) s (omega arith)
        (omega arith)
    ∙ rw value

lead_four :
    (x y : ℕ)
    → x < 5
    → y < 64
    → 16 ≤ x * 64 + y
    → x * 64 + y < 0x110
    → (lo : ℕ) × (hi : ℕ) × (lead (0xF0 + x) ≡ partial (wanting 2 lo hi x))
      × (lo ≤ 0x80 + y)
      × (0x80 + y ≤ hi)
unfolding lead
lead_four x y a b above below = elim (four_cases x a) [
  | inl zero_lead ↦ (0x90, 0xBF, ground arith, omega arith, omega arith)
  | inr (inl last) ↦ (0x80, 0x8F, ground arith, omega arith, omega arith)
  | inr (inr other) ↦ (0x80, 0xBF, ground arith, omega arith, omega arith)
]
  where
    four_cases : (x : ℕ) → x < 5 → (x ≡ 0) ⊎ ((x ≡ 4) ⊎ ((0 < x) × (x < 4)))
    four_cases x h = omega arith

four_bytes :
    (c : ℕ) (s : List ℕ)
    → 0x10000 ≤ c
    → c < 0x110000
    → decode ready
        ((0xF0 + c / 262144) ∷ (0x80 + c / 4096 % 64) ∷ (0x80 + c / 64 % 64) ∷ (0x80 + c % 64) ∷ s)
      ≡ some c ∷ decode ready s
unfolding continue_char
four_bytes c s a b =
    let x = c / 262144 in
    let y = c / 4096 % 64 in
    let z = c / 64 % 64 in
    let value : ((x * 64 + y) * 64 + z) * 64 + c % 64 ≡ c = omega arith in
    let (lo, hi, first, above, below) =
      lead_four x y (omega arith) (omega arith) (omega arith) (omega arith) in
    decode-lead (0xF0 + x) (wanting 2 lo hi x) _ first
    ∙ decode_continue 2 lo hi x y _ above below
    ∙ decode_continue 1 0x80 0xBF (x * 64 + y) z _ (omega arith) (omega arith)
    ∙ decode_continue 0 0x80 0xBF ((x * 64 + y) * 64 + z) (c % 64) s (omega arith) (omega arith)
    ∙ rw value

-- Which of the four codes a character has.
encoded-cases :
    (c : ℕ)
    → ((c < 0x80) × (encode_char c ≡ c ∷ []))
      ⊎ (((0x80 ≤ c) × (c < 0x800) × (encode_char c ≡ (0xC0 + c / 64) ∷ (0x80 + c % 64) ∷ []))
          ⊎ (((0x800 ≤ c)
                × (c < 0x10000)
                × (encode_char c ≡ (0xE0 + c / 4096) ∷ (0x80 + c / 64 % 64) ∷ (0x80 + c % 64) ∷ []))
              ⊎ ((0x10000 ≤ c)
                  × (encode_char c
                      ≡ (0xF0 + c / 262144)
                        ∷ (0x80 + c / 4096 % 64)
                        ∷ (0x80 + c / 64 % 64)
                        ∷ (0x80 + c % 64)
                        ∷ []))))
unfolding encode_char
encoded-cases c = ground arith

decode-encode_char :
    (c : ℕ) (s : List ℕ) → IsScalar c → decode ready (encode_char c ++ s) ≡ some c ∷ decode ready s
decode-encode_char c s scalar = elim (encoded-cases c) [
  | inl one ↦ rw one.1 (one_byte c s one.0)
  | inr (inl two) ↦ rw two.2 (two_bytes c s two.0 two.1)
  | inr (inr (inl three)) ↦ rw three.2 (three_bytes c s three.0 three.1 scalar)
  | inr (inr (inr four)) ↦ rw four.1 (four_bytes c s four.0 (omega (arith, four.0)))
]

-- Lossy decoding of a text's encoding loses nothing.
pub from_utf8_lossy-as_bytes : (s : List ℕ) → All IsScalar s → from_utf8_lossy (as_bytes s) ≡ s
unfolding from_utf8_lossy as_bytes replaced
from_utf8_lossy-as_bytes [] h = unfold decode in refl
from_utf8_lossy-as_bytes (c ∷ s) (hc, hs) =
    rw (decode-encode_char c (as_bytes s) hc) (ap (◌∷◌ c) (from_utf8_lossy-as_bytes s hs))
