-- ===== src/Proxy/Chunk/Body.antt =====
-- Chunked bodies on the wire: what `pass_through_chunked`, `read_chunked_body` and `write_chunked_body` do
-- with a body of any chunks, whatever the network's reads return.
use dlna_proxy.Common.{
  ℕ, zero, suc, ◌+◌, ◌-◌, ◌≤◌, ◌<◌, false, some, List, [], ◌∷◌, ◌++◌, append_assoc, append-nil, ◌≡◌,
  refl, sym, ◌∙◌, arith, length, length-append, All, Lacks,
}
use dlna_proxy.Text.{Bytes, lf}
use dlna_proxy.Net.{Ending, done}
use dlna_proxy.Net.Laws.{conn, read_until_lf-line}
use dlna_proxy.Proxy.Chunk.{
  parse_chunk_size, pass_through_chunked, read_chunked_body, isize_max, exceeds, capacity_overflow,
}
use dlna_proxy.Proxy.Chunk.Forward.{forward-length}
use dlna_proxy.Proxy.Chunk.Round.{pass_round, read_round, pass_last, read_last}

-- A chunk: its size line without the LF, its bytes, and the two bytes behind them.
pub record Chunk : Type 0 where
  pub size_text : Bytes
  pub payload : Bytes
  pub close0 : ℕ
  pub close1 : ℕ

pub record IsChunk (ch : Chunk) : Type 0 where
  pub one_line : Lacks lf ch.size_text
  pub size_is : parse_chunk_size (ch.size_text ++ lf ∷ []) ≡ some (length ch.payload)
  pub not_empty : 0 < length ch.payload

-- The last chunk's size line and the one line behind it, both without the LF.
pub record Last : Type 0 where
  pub size_text : Bytes
  pub trailer : Bytes

pub record IsLast (z : Last) : Type 0 where
  pub one_line : Lacks lf z.size_text
  pub size_is : parse_chunk_size (z.size_text ++ lf ∷ []) ≡ some 0
  pub trailer_line : Lacks lf z.trailer

-- the bytes on the wire, in front of `rest`
abbrev pub chunk_wire : Chunk → Bytes → Bytes
chunk_wire ch rest = ch.size_text ++ lf ∷ (ch.payload ++ ch.close0 ∷ ch.close1 ∷ rest)

abbrev pub last_wire : Last → Bytes → Bytes
last_wire z rest = z.size_text ++ lf ∷ (z.trailer ++ lf ∷ rest)

abbrev pub body_wire : List Chunk → Last → Bytes → Bytes
body_wire [] z rest = last_wire z rest
body_wire (ch ∷ chs) z rest = chunk_wire ch (body_wire chs z rest)

-- the bytes that the chunks carry
abbrev pub payloads : List Chunk → Bytes
payloads [] = []
payloads (ch ∷ chs) = ch.payload ++ payloads chs

not-exceeds :
    (max_size len n : ℕ)
    → max_size ≤ isize_max
    → len + n ≤ max_size
    → exceeds max_size len n ≡ false
unfolding exceeds
not-exceeds max_size len n small fits = ground arith

pub not-capacity_overflow : (n : ℕ) → n ≤ isize_max → capacity_overflow n ≡ false
unfolding capacity_overflow
not-capacity_overflow n h = ground arith

ne-nil : (l rest : Bytes) → (b : ℕ) × (bs : Bytes) × (l ++ lf ∷ rest ≡ b ∷ bs)
ne-nil [] rest = (lf, rest, refl)
ne-nil (b ∷ l) rest = (b, l ++ lf ∷ rest, refl)

chunk_out :
    (out s p w : Bytes) (c0 c1 : ℕ)
    → (((out ++ (s ++ lf ∷ [])) ++ p) ++ c0 ∷ c1 ∷ []) ++ w ≡ out ++ (s ++ lf ∷ (p ++ c0 ∷ c1 ∷ w))
chunk_out out s p w c0 c1 = simp append_assoc

last_out :
    (out s t : Bytes)
    → (out ++ (s ++ lf ∷ [])) ++ (t ++ lf ∷ []) ≡ out ++ (s ++ lf ∷ (t ++ lf ∷ []))
last_out out s t = simp append_assoc

-- Pass-through forwards a chunked body byte for byte, its size lines, extensions and trailer line
-- included, and stops behind it, however the network cuts the stream.
pub pass_through_chunked-body_wire :
    (chs : List Chunk) (z : Last) (f : ℕ) (rest : Bytes) (e : Ending) (rs : List ℕ) (out : Bytes)
    → length chs < f
    → All IsChunk chs
    → IsLast z
    → (rs' : List ℕ) × (pass_through_chunked f (conn (body_wire chs z rest) e rs out)
        ≡ (done tt, conn rest e rs' (out ++ body_wire chs z [])))
pass_through_chunked-body_wire [] z zero rest e rs out h cs l = absurd (omega arith)
pass_through_chunked-body_wire [] z (suc f) rest e rs out h cs l =
    let (b, bs, line) = ne-nil z.size_text [] in
    (
      rs,
      pass_last f b bs _ z.trailer rest e rs out
            (rw line at
              (read_until_lf-line e rs out z.size_text (z.trailer ++ lf ∷ rest) l.one_line))
            (rw line at l.size_is) l.trailer_line
          ∙ rw (← line, last_out) refl,
    )
pass_through_chunked-body_wire (ch ∷ chs) z zero rest e rs out h cs l = absurd (omega arith)
pass_through_chunked-body_wire (ch ∷ chs) z (suc f) rest e rs out h (c, cs) l =
    let (b, bs, line) = ne-nil ch.size_text [] in
    let k = length ch.payload - 1 in
    let size : length ch.payload ≡ suc k = omega (arith, c.not_empty) in
    let more = body_wire chs z rest in
    let (rs', copied) =
      forward-length (suc k) (suc k) ch.payload (ch.close0 ∷ ch.close1 ∷ more) e rs (out ++ b ∷ bs)
        (omega arith) size in
    let (rs'', later) =
      pass_through_chunked-body_wire chs z f rest e rs'
        (((out ++ b ∷ bs) ++ ch.payload) ++ ch.close0 ∷ ch.close1 ∷ []) (omega arith) cs l in
    (
      rs'',
      pass_round f b k ch.close0 ch.close1 bs _ ch.payload more e rs rs' out
            (rw line at (
              read_until_lf-line e rs out ch.size_text
                (ch.payload ++ ch.close0 ∷ ch.close1 ∷ body_wire chs z rest) c.one_line))
            (rw (line, size) at c.size_is) copied
          ∙ later
          ∙ rw (← line, chunk_out) refl,
    )

-- A chunked body within the limit is read as the bytes that its chunks carry, and nothing behind it is
-- taken.
pub read_chunked_body-body_wire :
    (chs : List Chunk) (z : Last) (f max_size : ℕ) (body rest : Bytes) (e : Ending) (rs : List ℕ)
    (out : Bytes)
    → length chs < f
    → max_size ≤ isize_max
    → length body + length (payloads chs) ≤ max_size
    → All IsChunk chs
    → IsLast z
    → read_chunked_body f max_size body (conn (body_wire chs z rest) e rs out)
      ≡ (done (body ++ payloads chs), conn rest e rs out)
read_chunked_body-body_wire [] z zero max_size body rest e rs out h small fits cs l =
    absurd (omega arith)
read_chunked_body-body_wire [] z (suc f) max_size body rest e rs out h small fits cs l =
    let (b, bs, line) = ne-nil z.size_text [] in
    read_last f max_size b bs _ z.trailer rest e rs out body
      (rw line at (read_until_lf-line e rs out z.size_text (z.trailer ++ lf ∷ rest) l.one_line))
      (rw line at l.size_is) l.trailer_line
    ∙ rw append-nil refl
read_chunked_body-body_wire (ch ∷ chs) z zero max_size body rest e rs out h small fits cs l =
    absurd (omega arith)
read_chunked_body-body_wire (ch ∷ chs) z (suc f) max_size body rest e rs out h small fits (c, cs)
      l =
    let (b, bs, line) = ne-nil ch.size_text [] in
    let k = length ch.payload - 1 in
    let size : length ch.payload ≡ suc k = omega (arith, c.not_empty) in
    let sum = length-append ch.payload (payloads chs) in
    read_round f max_size b k ch.close0 ch.close1 bs _ ch.payload (body_wire chs z rest) e rs out
      body
      (rw line at (
        read_until_lf-line e rs out ch.size_text
          (ch.payload ++ ch.close0 ∷ ch.close1 ∷ body_wire chs z rest) c.one_line))
      (rw (line, size) at c.size_is) (sym size)
      (not-exceeds max_size (length body) (suc k) small (omega (arith, sum)))
      (not-capacity_overflow (suc k) (omega (arith, sum)))
    ∙ read_chunked_body-body_wire chs z f max_size (body ++ ch.payload) rest e rs out (omega arith)
        small (omega (arith, sum, length-append body ch.payload)) cs l
    ∙ rw append_assoc refl
