-- ===== src/Witness/Tests/Chunk.antt =====
-- tcp_proxy.rs: the source's own tests of `parse_chunk_size`.
use dlna_proxy.Common.{ℕ, Bool, true, false, ◌&&◌, Option, none, some, ◌==◌, ◌≡◌, refl}
use dlna_proxy.Text.{codes}
use dlna_proxy.Proxy.Chunk.{parse_chunk_size}

-- `assert_eq!(r.unwrap(), n)`
abbrev sized : Option ℕ → ℕ → Bool
sized none n = false
sized (some k) n = k == n

-- `assert!(r.is_err())`
abbrev refused : Option ℕ → Bool
refused none = true
refused (some _) = false

abbrev test_parse_chunk_size_zero : Bool
test_parse_chunk_size_zero = sized (parse_chunk_size (codes "0\r\n")) 0

abbrev test_parse_chunk_size_single_digit : Bool
test_parse_chunk_size_single_digit =
    sized (parse_chunk_size (codes "a\r\n")) 10
    && sized (parse_chunk_size (codes "f\r\n")) 15
    && sized (parse_chunk_size (codes "5\r\n")) 5

abbrev test_parse_chunk_size_uppercase : Bool
test_parse_chunk_size_uppercase =
    sized (parse_chunk_size (codes "A\r\n")) 10
    && sized (parse_chunk_size (codes "FF\r\n")) 255
    && sized (parse_chunk_size (codes "DEADBEEF\r\n")) 0xDEADBEEF

abbrev test_parse_chunk_size_mixed_case : Bool
test_parse_chunk_size_mixed_case =
    sized (parse_chunk_size (codes "aB\r\n")) 0xAB
    && sized (parse_chunk_size (codes "DeAdBeEf\r\n")) 0xDEADBEEF

abbrev test_parse_chunk_size_with_extension : Bool
test_parse_chunk_size_with_extension =
    sized (parse_chunk_size (codes "10;name=value\r\n")) 16
    && sized (parse_chunk_size (codes "ff;ext\r\n")) 255

abbrev test_parse_chunk_size_with_trailing_space : Bool
test_parse_chunk_size_with_trailing_space = sized (parse_chunk_size (codes "10 \r\n")) 16

abbrev test_parse_chunk_size_newline_only : Bool
test_parse_chunk_size_newline_only = sized (parse_chunk_size (codes "10\n")) 16

abbrev test_parse_chunk_size_invalid_hex : Bool
test_parse_chunk_size_invalid_hex =
    refused (parse_chunk_size (codes "xyz\r\n")) && refused (parse_chunk_size (codes "gg\r\n"))

abbrev test_parse_chunk_size_empty : Bool
test_parse_chunk_size_empty = refused (parse_chunk_size (codes "\r\n"))

-- All of them pass.
chunk_size_tests :
    (test_parse_chunk_size_zero && test_parse_chunk_size_single_digit
      && test_parse_chunk_size_uppercase && test_parse_chunk_size_mixed_case
      && test_parse_chunk_size_with_extension && test_parse_chunk_size_with_trailing_space
      && test_parse_chunk_size_newline_only && test_parse_chunk_size_invalid_hex
      && test_parse_chunk_size_empty)
    ≡ true
unfolding parse_chunk_size
chunk_size_tests = refl
