-- ===== src/Text/Digits.antt =====
-- Printed numbers are read back: `from_str_radix` on what `{}` and `{:x}` print.
use dlna_proxy.Common.{
  ℕ, zero, suc, ◌/◌, ◌%◌, ◌≤◌, ◌<◌, true, ◌||◌, some, List, [], ◌∷◌, ◌≢◌, ◌⊎◌, ◌≡◌, refl, ◌∙◌,
  arith, ◌==◌, within, All, Bool-cases, ==_iff, inl, inr,
}
use dlna_proxy.Text.Ascii.{IsAscii}
use dlna_proxy.Text.Number.{
  usize_max, digit_char, spell, to_decimal, to_hex, to_digit, read_digits, from_str_radix,
}

-- the characters that `{}` and `{:x}` print
abbrev pub IsHex : ℕ → Type 0
IsHex c = within b'0' b'9' c || within b'a' b'f' c ≡ true

-- What the proofs use of a base: a digit is a hexadecimal one, division makes a number smaller, and reading
-- the last digit after the others gives the number.
record IsBase (base : ℕ) : Type 0 where
  digit : (n : ℕ) → IsHex (digit_char (n % base))
  shrinks : (n : ℕ) → (n / base ≡ 0) ⊎ (n / base < n)
  last :
      (n : ℕ) (out : List ℕ)
      → n ≤ usize_max
      → read_digits base (n / base) (digit_char (n % base) ∷ out) ≡ read_digits base n out

decimal : IsBase 10
unfolding digit_char read_digits to_digit
decimal = record {
  digit = λ n. ground arith;
  shrinks = λ n. ground arith;
  last = λ n out h. ground arith;
}

hexadecimal : IsBase 16
unfolding digit_char read_digits to_digit
hexadecimal = record {
  digit = λ n. ground arith;
  shrinks = λ n. ground arith;
  last = λ n out h. ground arith;
}

module _ {base : ℕ} (b : IsBase base) where
  spell-IsHex : (f n : ℕ) (out : List ℕ) → All IsHex out → All IsHex (spell f base n out)
  unfolding spell
  spell-IsHex zero n out h = h
  spell-IsHex (suc f) n out h = elim (Bool-cases (n / base == 0)) [
    | inl stop ↦ rw stop (b.digit n, h)
    | inr more ↦ rw more (spell-IsHex f (n / base) _ (b.digit n, h))
  ]

  spell-ne-nil : (f n : ℕ) (out : List ℕ) → out ≢ [] → spell f base n out ≢ []
  unfolding spell
  spell-ne-nil zero n out h = h
  spell-ne-nil (suc f) n out h = elim (Bool-cases (n / base == 0)) [
    | inl stop ↦ rw stop (λ e. cc)
    | inr more ↦ rw more (spell-ne-nil f (n / base) _ (λ e. cc))
  ]

  spell_round-ne-nil : (n : ℕ) → spell (suc n) base n [] ≢ []
  unfolding spell
  spell_round-ne-nil n = elim (Bool-cases (n / base == 0)) [
    | inl stop ↦ rw stop (λ e. cc)
    | inr more ↦ rw more (spell-ne-nil n (n / base) _ (λ e. cc))
  ]

  -- reading back the digits of `n`, then `out`
  read_digits-spell :
      (f n : ℕ) (out : List ℕ)
      → n < f
      → n ≤ usize_max
      → read_digits base 0 (spell f base n out) ≡ read_digits base n out
  unfolding spell
  read_digits-spell zero n out h fits = absurd (omega arith)
  read_digits-spell (suc f) n out h fits = elim (Bool-cases (n / base == 0)) [
    | inl stop ↦ rw stop (rw ((==_iff (n / base) 0).0 stop) at (b.last n out fits))
    | inr more ↦ rw more (
        read_digits-spell f (n / base) _ (ground (arith, b.shrinks n)) (ground (arith, b.shrinks n))
        ∙ b.last n out fits)
  ]

not-plus :
    (base : ℕ) (s : List ℕ) → All IsHex s → s ≢ [] → from_str_radix base s ≡ read_digits base 0 s
unfolding from_str_radix
not-plus base [] h ne = absurd (ne refl)
not-plus base (c ∷ []) h ne = refl
not-plus base (c ∷ d ∷ s) h ne = ground arith

parse-spell :
    {base : ℕ} (b : IsBase base) (n : ℕ)
    → n ≤ usize_max
    → from_str_radix base (spell (suc n) base n []) ≡ some n
unfolding read_digits
parse-spell {base} b n h =
    not-plus base _ (spell-IsHex b (suc n) n [] tt) (spell_round-ne-nil b n)
    ∙ read_digits-spell b (suc n) n [] (omega arith) h

-- Every `usize` is read back from its decimal and from its hexadecimal print.
pub from_str_radix-to_decimal : (n : ℕ) → n ≤ usize_max → from_str_radix 10 (to_decimal n) ≡ some n
unfolding to_decimal
from_str_radix-to_decimal = parse-spell decimal

pub from_str_radix-to_hex : (n : ℕ) → n ≤ usize_max → from_str_radix 16 (to_hex n) ≡ some n
unfolding to_hex
from_str_radix-to_hex = parse-spell hexadecimal

pub to_decimal-ne-nil : (n : ℕ) → to_decimal n ≢ []
unfolding to_decimal
to_decimal-ne-nil = spell_round-ne-nil decimal

pub to_hex-ne-nil : (n : ℕ) → to_hex n ≢ []
unfolding to_hex
to_hex-ne-nil = spell_round-ne-nil hexadecimal

pub to_decimal-IsHex : (n : ℕ) → All IsHex (to_decimal n)
unfolding to_decimal
to_decimal-IsHex n = spell-IsHex decimal (suc n) n [] tt

pub to_hex-IsHex : (n : ℕ) → All IsHex (to_hex n)
unfolding to_hex
to_hex-IsHex n = spell-IsHex hexadecimal (suc n) n [] tt

pub IsHex-IsAscii : (s : List ℕ) → All IsHex s → IsAscii s
IsHex-IsAscii [] h = tt
IsHex-IsAscii (c ∷ s) h = (ground arith, IsHex-IsAscii s h.1)
