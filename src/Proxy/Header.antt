-- ===== src/Proxy/Header.antt =====
-- tcp_proxy.rs, header blocks: `should_rewrite_content`, `update_content_length`, and what the header
-- loop of `proxy_response_with_rewrite` notes of each line.
pub mod Length
use dlna_proxy.Common.{
  ℕ, Bool, true, false, ◌&&◌, ◌||◌, Option, none, some, List, [], ◌∷◌, ◌++◌, get_elem?,
  if◌then◌else◌,
}
use dlna_proxy.Text.{
  Bytes, Str, codes, cr, lf, equal, starts_with, contains, split, lines, trim, to_lowercase,
}
use dlna_proxy.Text.Utf8.{from_utf8_lossy}
use dlna_proxy.Text.Number.{to_decimal, from_str_radix}

-- `split(':').nth(1).unwrap_or("")`
abbrev second_part : Option Str → Str
second_part none = []
second_part (some s) = s

is_text_type : Str → Bool
unfolding starts_with contains
is_text_type content_type =
    starts_with content_type (codes "text/")
    || contains content_type (codes "xml")
    || contains content_type (codes "json")
    || contains content_type (codes "html")

-- the loop over the lower-case lines: the first Content-Type line decides
type_of_lines : List Str → Bool
unfolding is_text_type
type_of_lines [] = false
type_of_lines (line ∷ rest) =
    if starts_with line (codes "content-type:")
    then is_text_type (trim (second_part (get_elem? (split line b':') 1)))
    else type_of_lines rest

unfoldable pub should_rewrite_content : Str → Bool
unfolding type_of_lines starts_with trim split lines to_lowercase
should_rewrite_content headers = type_of_lines (lines (to_lowercase headers))

unfoldable pub is_content_length : Str → Bool
unfolding starts_with to_lowercase
is_content_length line = starts_with (to_lowercase line) (codes "content-length:")

unfoldable pub update_line : ℕ → Str → Str
unfolding is_content_length to_decimal
update_line new_length line =
    if is_content_length line
    then codes "Content-Length: " ++ (to_decimal new_length ++ codes "\r\n")
    else line ++ codes "\r\n"

update_lines : ℕ → Str → List Str → Str
unfolding update_line
update_lines new_length result [] = result
update_lines new_length result (line ∷ rest) =
    update_lines new_length (result ++ update_line new_length line) rest

unfoldable pub update_content_length : Str → ℕ → Str
unfolding update_lines lines
update_content_length headers new_length = update_lines new_length [] (lines headers)

-- the variables of the header loop
pub record Head : Type 0 where
  pub header_buf : Bytes
  pub content_length : Option ℕ
  pub is_chunked : Bool

abbrev pub no_head : Head
no_head = record { header_buf = []; content_length = none; is_chunked = false }

-- `len_str.trim().parse().ok()`; a line with no second part leaves the old value
length_value : Option Str → Option ℕ → Option ℕ
unfolding trim from_str_radix
length_value none old = old
length_value (some len_str) old = from_str_radix 10 (trim len_str)

unfoldable pub note_line : Head → Bytes → Head
unfolding from_utf8_lossy to_lowercase starts_with contains split length_value is_content_length
note_line h line =
    let line_str = from_utf8_lossy line in
    record {
      header_buf = h.header_buf ++ line;
      content_length =
          if is_content_length line_str
          then length_value (get_elem? (split line_str b':') 1) h.content_length
          else h.content_length;
      is_chunked =
          if starts_with (to_lowercase line_str) (codes "transfer-encoding:")
            && contains (to_lowercase line_str) (codes "chunked")
          then true
          else h.is_chunked;
    }

-- `line == b"\r\n" || line == b"\n"`
unfoldable pub is_blank_line : Bytes → Bool
unfolding equal
is_blank_line line = equal line (cr ∷ lf ∷ []) || equal line (lf ∷ [])
