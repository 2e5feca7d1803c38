-- ===== src/Proxy/Chunk/Panics.antt =====
-- Chunked bodies: what is left of the stream behind one, and what makes the reader panic.
use dlna_proxy.Common.{
  ℕ, zero, suc, ◌<◌, Bool, true, false, Option, none, some, [], ◌∷◌, ◌++◌, ◌⊎◌, inl, inr, ◌≡◌, refl,
  sym, subst, ap, ◌∙◌, arith, length, length-append,
}
use dlna_proxy.Text.{Bytes}
use dlna_proxy.Net.{Conn, take_line, drop_line, read_until_lf, read_exact, write_all}
use dlna_proxy.Net.After.{
  After, After-bind, After-map, TookLine, Took, Kept, read_until_lf-After, read_exact-After,
  write_all-After,
}
use dlna_proxy.Proxy.Chunk.Copied.{Copied, forward-After}
use dlna_proxy.Proxy.Chunk.{
  forward, pass_through_chunked, read_chunked_body, write_chunked_body, parse_chunk_size,
  or_invalid, limit_check, allocate, exceeds, allocate_if, isize_max, capacity_overflow,
}

-- a size line that announces a chunk larger than a vector can be
pub record HugeLine (line : Bytes) : Type 0 where
  pub size : ℕ
  pub announces : parse_chunk_size line ≡ some size
  pub above : isize_max < size

-- A chunk of the stream `s`: its size line, as many bytes, and two more; `next` is behind it.
pub record ChunkOf (s next : Bytes) : Type 0 where
  pub size : ℕ
  pub chunk : Bytes
  pub crlf : Bytes
  pub announces : parse_chunk_size (take_line s) ≡ some size
  pub behind_line : drop_line s ≡ chunk ++ (crlf ++ next)
  pub whole : length chunk ≡ size
  pub two : length crlf ≡ 2

-- The stream `s` begins with a chunked body, and `rest` is behind it: chunks, then a last one with one line behind
-- it, or the end of the stream in place of a size line.
pub data ChunksTo : Bytes → Bytes → Type 0 where
  ended : {s : Bytes} → take_line s ≡ [] → ChunksTo s (drop_line s)
  last :
      {s : Bytes} → parse_chunk_size (take_line s) ≡ some 0 → ChunksTo s (drop_line (drop_line s))
  chunk : {s next rest : Bytes} → ChunkOf s next → ChunksTo next rest → ChunksTo s rest

-- The stream begins with chunks, and then a size line that announces more than isize::MAX bytes.
pub data HugeBehind : Bytes → Type 0 where
  huge : {s : Bytes} → HugeLine (take_line s) → HugeBehind s
  later : {s next : Bytes} → ChunkOf s next → HugeBehind next → HugeBehind s

or_invalid-After :
    (P : Type 0) (o : Option ℕ) (c : Conn)
    → After (λ n rest. (o ≡ some n) × (rest ≡ c.input)) P (or_invalid o c)
or_invalid-After P none c = tt
or_invalid-After P (some n) c = (refl, refl)

limit_check-After : (P : Type 0) (b : Bool) (c : Conn) → After (Kept c.input) P (limit_check b c)
limit_check-After P true c = tt
limit_check-After P false c = refl

pub allocate_if-After :
    (P : Type 0) (b : Bool) (c : Conn) → (b ≡ true → P) → After (Kept c.input) P (allocate_if b c)
allocate_if-After P true c h = h refl
allocate_if-After P false c h = refl

-- a chunk that was read, or passed on, up to the two bytes behind it
chunk_of :
    (s line i1 got i2 crlf next : Bytes) (n : ℕ)
    → parse_chunk_size line ≡ some n
    → line ≡ take_line s
    → i1 ≡ drop_line s
    → i1 ≡ got ++ i2
    → length got ≡ n
    → i2 ≡ crlf ++ next
    → length crlf ≡ 2
    → ChunkOf s next
chunk_of s line i1 got i2 crlf next n p l d e h f t = record {
  size = n;
  chunk = got;
  crlf = crlf;
  announces = rw l at p;
  behind_line = sym d ∙ e ∙ ap (λ x. got ++ x) f;
  whole = h;
  two = t;
}

not_cut :
    (bs rest crlf next : Bytes) (n : ℕ)
    → (length bs ≡ n) ⊎ (rest ≡ [])
    → rest ≡ crlf ++ next
    → length crlf ≡ 2
    → length bs ≡ n
not_cut bs rest crlf next n (inl h) e t = h
not_cut bs rest crlf next n (inr h) e t =
    let none_left : length (crlf ++ next) ≡ 0 = ap length (sym e ∙ h) in
    absurd (omega (arith, none_left, length-append crlf next))

abbrev pub LeavesChunks : {A : Type 0} → Bytes → A → Bytes → Type 0
LeavesChunks s a rest = ChunksTo s rest

at_last :
    (s line i1 i2 rest : Bytes)
    → parse_chunk_size line ≡ some 0
    → line ≡ take_line s
    → i1 ≡ drop_line s
    → i2 ≡ i1
    → rest ≡ drop_line i2
    → ChunksTo s rest
at_last s line i1 i2 rest p l d k e =
    subst (ChunksTo s) (sym (e ∙ ap drop_line (k ∙ d))) (last (rw l at p))

pub pass_through_chunked-After :
    (P : Type 0) (f : ℕ) (c : Conn) → After (LeavesChunks c.input) P (pass_through_chunked f c)
unfolding pass_through_chunked
pass_through_chunked-After P zero c = tt
pass_through_chunked-After P (suc f) c =
    let R : Unit {0} → Bytes → Type 0 = LeavesChunks c.input in
    After-bind (TookLine c.input) R P (read_until_lf c) _ (read_until_lf-After P c) (elim [
      | [] ↦ λ c1 (l, d). subst (ChunksTo c.input) (sym d) (ended (sym l))
      | b ∷ more ↦ λ c1 (l, d).
          let line = b ∷ more in
          After-bind (Kept c1.input) R P (write_all line c1) _ (write_all-After P line c1)
            λ _ c2 k2.
              After-bind _ R P (or_invalid (parse_chunk_size line) c2) _
                (or_invalid-After P (parse_chunk_size line) c2)
                (elim [
                  | zero ↦ λ c3 (p, k3).
                      After-bind (TookLine c3.input) R P (read_until_lf c3) _
                        (read_until_lf-After P c3)
                        λ trailer c4 (_, d4).
                          After-map (Kept c4.input) R P (write_all trailer c4)
                            (write_all-After P trailer c4)
                            λ _ rest k.
                              at_last c.input line c1.input c3.input rest p l d (k3 ∙ k2) (k ∙ d4)
                  | suc k ↦ λ c3 (p, k3).
                      After-bind (Copied (suc k) c3.input) R P (forward (suc k) (suc k) c3) _
                        (forward-After P (suc k) (suc k) c3)
                        λ _ c4 (bs, e4, whole).
                          After-bind (Took 2 c4.input) R P (read_exact 2 c4) _
                            (read_exact-After P 2 c4)
                            λ crlf c5 (e5, two).
                              After-bind (Kept c5.input) R P (write_all crlf c5) _
                                (write_all-After P crlf c5)
                                λ _ c6 k6.
                                  let is =
                                    chunk_of c.input line c1.input bs c4.input crlf c6.input (suc k)
                                      p l d (sym (k3 ∙ k2) ∙ e4)
                                      (not_cut bs c4.input crlf c5.input (suc k) whole e5 two)
                                      (e5 ∙ ap (λ x. crlf ++ x) (sym k6)) two in
                                  After-map (LeavesChunks c6.input) R P (pass_through_chunked f c6)
                                    (pass_through_chunked-After P f c6) λ _ rest. chunk is
                ])
    ])

too_large :
    (s line : Bytes) (n : ℕ)
    → parse_chunk_size line ≡ some n
    → line ≡ take_line s
    → capacity_overflow n ≡ true
    → HugeBehind s
unfolding capacity_overflow
too_large s line n p l over =
    huge (record { size = n; announces = rw l at p; above = ground arith })

pub read_chunked_body-After :
    (P : Type 0) (f max_size : ℕ) (body : Bytes) (c : Conn)
    → (HugeBehind c.input → P)
    → After (LeavesChunks c.input) P (read_chunked_body f max_size body c)
unfolding read_chunked_body
read_chunked_body-After P zero max_size body c cause = tt
read_chunked_body-After P (suc f) max_size body c cause =
    let R : Bytes → Bytes → Type 0 = LeavesChunks c.input in
    After-bind (TookLine c.input) R P (read_until_lf c) _ (read_until_lf-After P c) (elim [
      | [] ↦ λ c1 (l, d). subst (ChunksTo c.input) (sym d) (ended (sym l))
      | b ∷ more ↦ λ c1 (l, d).
          let line = b ∷ more in
          After-bind _ R P (or_invalid (parse_chunk_size line) c1) _
            (or_invalid-After P (parse_chunk_size line) c1)
            (elim [
              | zero ↦ λ c3 (p, k3).
                  After-bind (TookLine c3.input) R P (read_until_lf c3) _ (read_until_lf-After P c3)
                    λ trailer c4 (_, d4).
                      at_last c.input line c1.input c3.input c4.input p l d k3 d4
              | suc k ↦ λ c3 (p, k3).
                  After-bind (Kept c3.input) R P
                    (limit_check (exceeds max_size (length body) (suc k)) c3) _
                    (limit_check-After P _ c3)
                    λ _ c4 k4.
                      After-bind (Kept c4.input) R P (allocate (suc k) c4) _
                        (allocate_if-After P _ c4
                          λ over. cause (too_large c.input line (suc k) p l over))
                        λ _ c5 k5.
                          After-bind (Took (suc k) c5.input) R P (read_exact (suc k) c5) _
                            (read_exact-After P (suc k) c5)
                            λ got c6 (e6, whole).
                              After-bind (Took 2 c6.input) R P (read_exact 2 c6) _
                                (read_exact-After P 2 c6)
                                λ crlf c7 (e7, two).
                                  let is =
                                    chunk_of c.input line c1.input got c6.input crlf c7.input
                                      (suc k) p l d (sym (k5 ∙ k4 ∙ k3) ∙ e6) whole e7 two in
                                  After-map (LeavesChunks c7.input) R P
                                    (read_chunked_body f max_size (body ++ got) c7)
                                    (read_chunked_body-After P f max_size (body ++ got) c7
                                      λ h. cause (later is h))
                                    λ _ rest. chunk is
            ])
    ])

pub write_chunked_body-After :
    (P : Type 0) (body : Bytes) (c : Conn) → After (Kept c.input) P (write_chunked_body body c)
unfolding write_chunked_body
write_chunked_body-After P body c =
    let R : Unit {0} → Bytes → Type 0 = Kept c.input in
    After-bind R R P (write_all _ c) _ (write_all-After P _ c) λ _ c1 k1.
      After-bind (Kept c1.input) R P (write_all body c1) _ (write_all-After P body c1) λ _ c2 k2.
        After-bind (Kept c2.input) R P (write_all _ c2) _ (write_all-After P _ c2) λ _ c3 k3.
          After-map (Kept c3.input) R P (write_all _ c3) (write_all-After P _ c3)
            λ _ rest k. k ∙ k3 ∙ k2 ∙ k1
