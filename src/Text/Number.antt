-- ===== src/Text/Number.antt =====
-- Integers printed and parsed as the standard library does: `{}`, `{:x}`, `usize::from_str_radix`
-- and `str::parse::<usize>`. `usize` has 64 bits.
use dlna_proxy.Common.{
  ℕ, zero, suc, ◌+◌, ◌*◌, ◌/◌, ◌%◌, ◌-◌, ◌^◌, Option, none, some, List, [], ◌∷◌, ltb, leb, ◌==◌,
  within, if◌then◌else◌,
}

abbrev pub usize_max : ℕ
usize_max = 2 ^ 64 - 1

unfoldable pub digit_char : ℕ → ℕ
digit_char d = if ltb d 10 then b'0' + d else b'a' + (d - 10)

-- The digits of `n` in front of `out`, the last digit first. Each round divides `n` by the base, so
-- `n + 1` rounds are enough.
unfoldable pub spell : ℕ → ℕ → ℕ → List ℕ → List ℕ
unfolding digit_char
spell zero base n out = out
spell (suc f) base n out =
    let rest = spell f base (n / base) (digit_char (n % base) ∷ out) in
    if n / base == 0 then digit_char (n % base) ∷ out else rest

-- `{}`
unfoldable pub to_decimal : ℕ → List ℕ
unfolding spell
to_decimal n = spell (suc n) 10 n []

-- `{:x}`
unfoldable pub to_hex : ℕ → List ℕ
unfolding spell
to_hex n = spell (suc n) 16 n []

-- `char::to_digit`
digit_value : ℕ → Option ℕ
digit_value c =
    if within b'0' b'9' c
    then some (c - b'0')
    else if within b'a' b'z' c
    then some (c - b'a' + 10)
    else if within b'A' b'Z' c
    then some (c - b'A' + 10)
    else none

unfoldable pub to_digit : ℕ → ℕ → Option ℕ
unfolding digit_value
to_digit base c = elim (digit_value c) [
  | none ↦ none
  | some d ↦ if ltb d base then some d else none
]

-- the digits, with checked multiplication and addition
unfoldable pub read_digits : ℕ → ℕ → List ℕ → Option ℕ
unfolding to_digit
read_digits base n [] = some n
read_digits base n (c ∷ s) = elim (to_digit base c) [
  | none ↦ none
  | some d ↦
      let rest = read_digits base (n * base + d) s in
      if leb (n * base + d) usize_max then rest else none
]

-- `usize::from_str_radix`: a leading `+` is allowed in front of a digit
unfoldable pub from_str_radix : ℕ → List ℕ → Option ℕ
unfolding read_digits
from_str_radix base [] = none
from_str_radix base (c ∷ []) = read_digits base 0 (c ∷ [])
from_str_radix base (c ∷ d ∷ s) =
    if c == b'+' then read_digits base 0 (d ∷ s) else read_digits base 0 (c ∷ d ∷ s)
