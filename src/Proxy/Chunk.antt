-- ===== src/Proxy/Chunk.antt =====
-- tcp_proxy.rs, chunked bodies: `parse_chunk_size`, `pass_through_chunked`, `read_chunked_body` and
-- `write_chunked_body`, with the copying loop that they share with fixed-length bodies.
pub mod Forward
pub mod Size
pub mod Round
pub mod Body
pub mod Coding
pub mod Ends
pub mod Limit
pub mod Copied
pub mod Panics
use dlna_proxy.Common.{
  Bool, true, false, ℕ, zero, suc, ◌+◌, ◌-◌, ◌%◌, ◌^◌, min, true, false, ◌||◌, Option, none, some,
  [], ◌∷◌, ◌++◌, ltb, ◌==◌, length, if◌then◌else◌,
}
use dlna_proxy.Text.{Bytes, codes, cr, lf, trim}
use dlna_proxy.Text.Utf8.{from_utf8}
use dlna_proxy.Text.Number.{from_str_radix, to_hex}
use dlna_proxy.Net.{
  M, pure, fail, panic, spent, invalid_data, ◌>>=◌, ◌>>◌, read_until_lf, read_exact, read,
  write_all,
}

-- `read_line_bytes`
abbrev pub read_line_bytes : M Bytes
read_line_bytes = read_until_lf

-- `line[..hex_end]`
unfoldable pub hex_part : Bytes → Bytes
hex_part [] = []
hex_part (b ∷ bs) = if b == b';' || b == cr || b == lf || b == b' ' then [] else b ∷ hex_part bs

hex_number : Option Bytes → Option ℕ
unfolding trim from_str_radix
hex_number none = none
hex_number (some hex_str) = from_str_radix 16 (trim hex_str)

-- `none` is an error of kind InvalidData
unfoldable pub parse_chunk_size : Bytes → Option ℕ
unfolding hex_part hex_number from_utf8
parse_chunk_size line = hex_number (from_utf8 (hex_part line))

-- `?` on a result whose error is InvalidData
abbrev pub or_invalid : Option ℕ → M ℕ
or_invalid none = fail invalid_data
or_invalid (some n) = pure n

-- `while remaining > 0 { … }`, with a buffer of 8192 bytes; a round reads at least one byte, so
-- `remaining` rounds are enough
unfoldable pub forward : ℕ → ℕ → M (Unit {0})
forward zero remaining = if remaining == 0 then pure tt else spent
forward (suc f) zero = pure tt
forward (suc f) (suc k) = do
  bs ← read (min (suc k) 8192)
  elim bs [
    | [] ↦ pure tt
    | b ∷ more ↦ write_all (b ∷ more) >> forward f (suc k - length (b ∷ more))
  ]

-- Each round reads a size line of at least one byte: the length of the input, and one more, is enough.
unfoldable pub pass_through_chunked : ℕ → M (Unit {0})
pass_through_chunked zero = spent
pass_through_chunked (suc f) = do
  size_line ← read_line_bytes
  elim size_line [
    | [] ↦ pure tt
    | b ∷ more ↦ do
      write_all (b ∷ more)
      chunk_size ← or_invalid (parse_chunk_size (b ∷ more))
      elim chunk_size [
        | zero ↦ do trailer ← read_line_bytes; write_all trailer
        | suc k ↦ do
          forward (suc k) (suc k)
          crlf ← read_exact 2
          write_all crlf
          pass_through_chunked f
      ]
  ]

abbrev pub isize_max : ℕ
isize_max = 2 ^ 63 - 1

-- `vec![0u8; n]` panics with "capacity overflow" for more than isize::MAX bytes
unfoldable pub capacity_overflow : ℕ → Bool
capacity_overflow n = ltb isize_max n

abbrev pub allocate_if : Bool → M (Unit {0})
allocate_if true = panic
allocate_if false = pure tt

abbrev pub allocate : ℕ → M (Unit {0})
allocate n = allocate_if (capacity_overflow n)

-- `body.len() + chunk_size > max_size`, a sum of type `usize`
unfoldable pub exceeds : ℕ → ℕ → ℕ → Bool
exceeds max_size len chunk_size = ltb max_size ((len + chunk_size) % 2 ^ 64)

abbrev pub limit_check : Bool → M (Unit {0})
limit_check true = fail invalid_data
limit_check false = pure tt

-- `read_chunked_body`, `body` being what was read so far. The sum of the sizes is a `usize`.
unfoldable pub read_chunked_body : ℕ → ℕ → Bytes → M Bytes
read_chunked_body zero max_size body = spent
read_chunked_body (suc f) max_size body = do
  size_line ← read_line_bytes
  elim size_line [
    | [] ↦ pure body
    | b ∷ more ↦ do
      chunk_size ← or_invalid (parse_chunk_size (b ∷ more))
      elim chunk_size [
        | zero ↦ do trailer ← read_line_bytes; pure body
        | suc k ↦ do
          limit_check (exceeds max_size (length body) (suc k))
          allocate (suc k)
          chunk ← read_exact (suc k)
          crlf ← read_exact 2
          read_chunked_body f max_size (body ++ chunk)
      ]
  ]

unfoldable pub write_chunked_body : Bytes → M (Unit {0})
write_chunked_body body = do
  write_all (to_hex (length body) ++ codes "\r\n")
  write_all body
  write_all (codes "\r\n")
  write_all (codes "0\r\n\r\n")
