-- ===== src/Witness/Tests/Body.antt =====
-- tcp_proxy.rs: the source's own tests of `read_line_bytes`, `read_chunked_body` and `write_chunked_body`.
use dlna_proxy.Common.{
  ℕ, Bool, true, false, ◌&&◌, ◌==◌, [], ◌∷◌, ◌++◌, take, drop, length, ◌≡◌, refl, suc, zero,
}
use dlna_proxy.Text.{Bytes, codes, equal, lf, starts_with}
use dlna_proxy.Text.Number.{to_hex}
use dlna_proxy.Net.{
  Conn, eof, Outcome, done, failed, invalid_data, read_until_lf, read_exact, write_all,
}
use dlna_proxy.Net.Laws.{conn}
use dlna_proxy.Proxy.Chunk.{
  read_line_bytes, parse_chunk_size, exceeds, capacity_overflow, read_chunked_body,
  write_chunked_body,
}
use dlna_proxy.Proxy.Response.{max_rewritable_body_size, with_fuel}
use dlna_proxy.Witness.Tests.{ends_with}

-- `Cursor::new(bytes)`
abbrev cursor : Bytes → Conn
cursor bytes = conn bytes eof [] []

-- `assert_eq!(r.unwrap(), expected)`
abbrev reads : Outcome Bytes × Conn → Bytes → Bool
reads (done bs, c) expected = equal bs expected
reads _ expected = false

-- `r.unwrap_err().kind() == ErrorKind::InvalidData`
abbrev is_invalid : Outcome Bytes × Conn → Bool
is_invalid (failed invalid_data, c) = true
is_invalid _ = false

abbrev read_length : Outcome Bytes × Conn → ℕ
read_length (done bs, c) = length bs
read_length _ = 0

abbrev read_limited : ℕ → Bytes → Outcome Bytes × Conn
read_limited limit bytes = with_fuel (λ f. read_chunked_body f limit []) (cursor bytes)

abbrev read_body : Bytes → Outcome Bytes × Conn
read_body = read_limited max_rewritable_body_size

-- the output of `write_chunked_body(&mut output, body).await.unwrap()`
abbrev written : Outcome (Unit {0}) × Conn → Bytes
written (done tt, c) = c.sent
written _ = []

abbrev write_body : Bytes → Bytes
write_body body = written (write_chunked_body body (cursor []))

abbrev longer_body : Bytes
longer_body = codes "This is a longer test body with multiple words"

abbrev some_bytes : Bytes
some_bytes = 0x00 ∷ 0xFF ∷ 0x80 ∷ 0x7F ∷ []

-- `(first..first + n).collect()`
abbrev range : ℕ → ℕ → Bytes
range first zero = []
range first (suc n) = first ∷ range (suc first) n

abbrev chunk_data : Bytes
chunk_data = 0x00 ∷ 0xFF ∷ 0x80 ∷ 0x7F ∷ 0x01 ∷ []

abbrev test_read_line_bytes_simple : Bool
test_read_line_bytes_simple =
    reads (read_line_bytes (cursor (codes "Hello\nWorld\n"))) (codes "Hello\n")

abbrev test_read_line_bytes_crlf : Bool
test_read_line_bytes_crlf =
    reads (read_line_bytes (cursor (codes "Hello\r\nWorld\r\n"))) (codes "Hello\r\n")

abbrev test_read_line_bytes_empty : Bool
test_read_line_bytes_empty = reads (read_line_bytes (cursor (codes ""))) (codes "")

abbrev test_read_line_bytes_binary_data : Bool
test_read_line_bytes_binary_data =
    reads (read_line_bytes (cursor (0x00 ∷ 0xFF ∷ 0x80 ∷ lf ∷ 0x01 ∷ 0x02 ∷ [])))
      (0x00 ∷ 0xFF ∷ 0x80 ∷ lf ∷ [])

abbrev test_read_chunked_body_single_chunk : Bool
test_read_chunked_body_single_chunk =
    reads (read_body (codes "5\r\nHello\r\n0\r\n\r\n")) (codes "Hello")

abbrev test_read_chunked_body_multiple_chunks : Bool
test_read_chunked_body_multiple_chunks =
    reads (read_body (codes "5\r\nHello\r\n6\r\n World\r\n0\r\n\r\n")) (codes "Hello World")

abbrev test_read_chunked_body_empty : Bool
test_read_chunked_body_empty = reads (read_body (codes "0\r\n\r\n")) (codes "")

abbrev test_read_chunked_body_hex_size : Bool
test_read_chunked_body_hex_size =
    read_length (read_body (codes "a\r\n0123456789\r\n0\r\n\r\n")) == 10
    && reads (read_body (codes "a\r\n0123456789\r\n0\r\n\r\n")) (codes "0123456789")

abbrev test_read_chunked_body_binary_data : Bool
test_read_chunked_body_binary_data =
    reads
      (read_body
        ((to_hex (length chunk_data) ++ codes "\r\n") ++ (chunk_data ++ codes "\r\n0\r\n\r\n")))
      (chunk_data)

abbrev test_read_chunked_body_exceeds_max_size : Bool
test_read_chunked_body_exceeds_max_size =
    is_invalid (read_limited 10 (codes "10\r\n0123456789abcdef\r\n0\r\n\r\n"))

abbrev test_write_chunked_body_simple : Bool
test_write_chunked_body_simple =
    equal (write_body (codes "Hello")) (codes "5\r\nHello\r\n0\r\n\r\n")

abbrev test_write_chunked_body_empty : Bool
test_write_chunked_body_empty = equal (write_body (codes "")) (codes "0\r\n\r\n0\r\n\r\n")

abbrev test_write_chunked_body_larger : Bool
test_write_chunked_body_larger =
    starts_with (write_body longer_body) (to_hex (length longer_body) ++ codes "\r\n")
    && ends_with (write_body longer_body) (codes "\r\n0\r\n\r\n")

abbrev test_write_chunked_body_binary : Bool
test_write_chunked_body_binary =
    starts_with (write_body some_bytes) (codes "4\r\n")
    && equal (take 4 (drop 3 (write_body some_bytes))) some_bytes

abbrev test_chunked_roundtrip : Bool
test_chunked_roundtrip =
    reads (read_body (write_body (codes "Test body content for round trip")))
      (codes "Test body content for round trip")

abbrev test_chunked_roundtrip_binary : Bool
test_chunked_roundtrip_binary = reads (read_body (write_body (range 0 256))) (range 0 256)

-- All of them pass.
body_tests :
    (test_read_line_bytes_simple && test_read_line_bytes_crlf && test_read_line_bytes_empty
      && test_read_line_bytes_binary_data && test_read_chunked_body_single_chunk
      && test_read_chunked_body_multiple_chunks && test_read_chunked_body_empty
      && test_read_chunked_body_hex_size && test_read_chunked_body_binary_data
      && test_read_chunked_body_exceeds_max_size && test_write_chunked_body_simple
      && test_write_chunked_body_empty && test_write_chunked_body_larger
      && test_write_chunked_body_binary && test_chunked_roundtrip && test_chunked_roundtrip_binary)
    ≡ true
unfolding read_until_lf read_exact write_all parse_chunk_size exceeds capacity_overflow
    read_chunked_body write_chunked_body equal starts_with ends_with to_hex
body_tests = refl
