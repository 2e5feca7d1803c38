-- ===== src/Proxy/Chunk/Size.antt =====
-- Chunk sizes: `parse_chunk_size` reads the size lines that `write_chunked_body` prints.
use dlna_proxy.Common.{ℕ, ◌≤◌, some, [], ◌∷◌, ◌++◌, ◌≡◌, arith, All, refl}
use dlna_proxy.Text.{Bytes, codes}
use dlna_proxy.Text.Ascii.{from_utf8-ascii}
use dlna_proxy.Text.Number.{usize_max, to_hex}
use dlna_proxy.Text.Digits.{
  IsHex, to_hex-IsHex, to_hex-ne-nil, IsHex-IsAscii, from_str_radix-to_hex,
}
use dlna_proxy.Text.Trim.{trim_solid, IsHex-IsSolid}
use dlna_proxy.Proxy.Chunk.{hex_part, parse_chunk_size}

hex_part-IsHex : (s : Bytes) → All IsHex s → hex_part (s ++ codes "\r\n") ≡ s
unfolding hex_part
hex_part-IsHex [] h = refl
hex_part-IsHex (c ∷ s) h = ground (arith, hex_part-IsHex s h.1)

-- The size line that is written for a body of `n` bytes is parsed back to `n`, for every `usize`.
pub parse_chunk_size-to_hex :
    (n : ℕ) → n ≤ usize_max → parse_chunk_size (to_hex n ++ codes "\r\n") ≡ some n
unfolding parse_chunk_size
parse_chunk_size-to_hex n h =
    let hex = to_hex-IsHex n in
    rw
      (
        hex_part-IsHex (to_hex n) hex,
        from_utf8-ascii (to_hex n) (IsHex-IsAscii _ hex),
        trim_solid (to_hex n) (IsHex-IsSolid _ hex) (to_hex-ne-nil n),
      )
      (from_str_radix-to_hex n h)
