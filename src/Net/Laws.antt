-- ===== src/Net/Laws.antt =====
-- The calls on a connection whose client takes every byte.
use dlna_proxy.Common.{
  ℕ, zero, suc, ◌≤◌, ◌<◌, min, true, none, Option, List, [], ◌∷◌, ◌++◌, ◌≡◌, refl, sym,
  take-append-drop, length-take, ap, arith, length, take, drop, length-append, take-length-append,
  drop-length-append, Lacks, leb,
}
use dlna_proxy.Text.{Bytes, lf}
use dlna_proxy.Net.{
  Conn, Ending, eof, done, read_until_lf, read_exact, read, write_all, copy, take_line, drop_line,
  has_lf, piece, rest_of,
}

-- A connection whose client takes every byte.
abbrev pub conn : Bytes → Ending → List ℕ → Bytes → Conn
conn input ending reads sent = record {
  input = input;
  ending = ending;
  reads = reads;
  sent = sent;
  room = none;
}

has_lf-line : (l rest : Bytes) → has_lf (l ++ lf ∷ rest) ≡ true
has_lf-line [] rest = refl
has_lf-line (b ∷ l) rest = ground (arith, has_lf-line l rest)

take_line-line : (l rest : Bytes) → Lacks lf l → take_line (l ++ lf ∷ rest) ≡ l ++ lf ∷ []
take_line-line [] rest h = refl
take_line-line (b ∷ l) rest h = ground (arith, take_line-line l rest h.1)

drop_line-line : (l rest : Bytes) → Lacks lf l → drop_line (l ++ lf ∷ rest) ≡ rest
drop_line-line [] rest h = refl
drop_line-line (b ∷ l) rest h = ground (arith, drop_line-line l rest h.1)

module _ (e : Ending) (rs : List ℕ) (out : Bytes) where
  -- A line is read up to its LF.
  pub read_until_lf-line :
      (l rest : Bytes)
      → Lacks lf l
      → read_until_lf (conn (l ++ lf ∷ rest) e rs out) ≡ (done (l ++ lf ∷ []), conn rest e rs out)
  unfolding read_until_lf
  read_until_lf-line l rest h =
      rw (has_lf-line l rest, take_line-line l rest h, drop_line-line l rest h)

  pub read_exact-length :
      (b rest : Bytes)
      → read_exact (length b) (conn (b ++ rest) e rs out) ≡ (done b, conn rest e rs out)
  unfolding read_exact
  read_exact-length b rest =
      let fits : leb (length b) (length (b ++ rest)) ≡ true =
        ground (arith, length-append b rest) in
      rw (fits, take-length-append b rest, drop-length-append b rest)

  pub write_all_lem :
      (input bs : Bytes)
      → write_all bs (conn input e rs out) ≡ (done tt, conn input e rs (out ++ bs))
  unfolding write_all
  write_all_lem input bs = refl

-- At the end of the stream there is no line.
pub read_until_lf_end :
    (rs : List ℕ) (out : Bytes) → read_until_lf (conn [] eof rs out) ≡ (done [], conn [] eof rs out)
unfolding read_until_lf
read_until_lf_end rs out = refl

pub copy_all :
    (input : Bytes) (rs : List ℕ) (out : Bytes)
    → copy (conn input eof rs out) ≡ (done tt, conn [] eof rs (out ++ input))
unfolding copy write_all
copy_all input rs out = refl

pub read_end_lem :
    (n : ℕ) (e : Ending) (rs : List ℕ) (out : Bytes)
    → e ≡ eof
    → read n (conn [] e rs out) ≡ (done [], conn [] e rs out)
unfolding read
read_end_lem n e rs out h = rw h refl

-- A `read` with room for `n` bytes takes the first of the input and `k` more, for some `k` below `n`.
record Piece (n : ℕ) (rs : List ℕ) : Type 0 where
  k : ℕ
  is : piece n rs ≡ suc k
  below : k < n

some-Piece : (n : ℕ) (rs : List ℕ) → 0 < n → Piece n rs
unfolding piece
some-Piece zero rs h = absurd (omega arith)
some-Piece (suc m) [] h = record { k = m; is = refl; below = omega arith }
some-Piece (suc m) (r ∷ rs) h = record { k = min m r; is = omega arith; below = omega arith }

-- What one `read` returns, and what it leaves: the input in two parts, the first not empty and within
-- the bound.
pub record Part (n : ℕ) (input : Bytes) : Type 0 where
  pub first : ℕ
  pub got : Bytes
  pub left : Bytes
  pub later : List ℕ
  pub parts : input ≡ first ∷ (got ++ left)
  pub bounded : suc (length got) ≤ n

pub read-Part :
    (n : ℕ) (b : ℕ) (input : Bytes) (e : Ending) (rs : List ℕ) (out : Bytes)
    → 0 < n
    → (p : Part n (b ∷ input)) × (read n (conn (b ∷ input) e rs out)
        ≡ (done (p.first ∷ p.got), conn p.left e p.later out))
unfolding read
read-Part n b input e rs out h =
    let p = some-Piece n rs h in
    (
      record {
        first = b;
        got = take p.k input;
        left = drop p.k input;
        later = rest_of rs;
        parts = ap (◌∷◌ b) (sym (take-append-drop p.k input));
        bounded = omega (arith, length-take p.k input, p.below);
      },
      rw p.is refl,
    )

-- The same of a client with any room: at least one byte is read, and at most `n`.
pub read_piece :
    (n b : ℕ) (bs : Bytes) (e : Ending) (rs : List ℕ) (out : Bytes) (room : Option ℕ)
    → 0 < n
    → (j : ℕ) × (later : List ℕ) × (j < n)
      × (read n (record { input = b ∷ bs; ending = e; reads = rs; sent = out; room = room }) ≡ (
        done (b ∷ take j bs),
        record { input = drop j bs; ending = e; reads = later; sent = out; room = room },
      ))
unfolding read
read_piece n b bs e rs out room h =
    let p = some-Piece n rs h in (p.k, rest_of rs, p.below, rw p.is refl)
