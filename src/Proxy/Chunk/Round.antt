-- ===== src/Proxy/Chunk/Round.antt =====
-- One round of `pass_through_chunked` and of `read_chunked_body`.
use dlna_proxy.Common.{ℕ, suc, false, some, List, [], ◌∷◌, ◌++◌, ◌≡◌, length, Lacks}
use dlna_proxy.Text.{Bytes, lf}
use dlna_proxy.Net.{read_until_lf, Ending, done}
use dlna_proxy.Net.Laws.{conn, read_until_lf-line, read_exact-length, write_all_lem}
use dlna_proxy.Proxy.Chunk.{
  parse_chunk_size, forward, pass_through_chunked, read_chunked_body, exceeds, capacity_overflow,
}

-- One round of `pass_through_chunked`, behind a size line `b ∷ bs` of a positive size.
pub pass_round :
    (f b k c0 c1 : ℕ) (bs input payload rest : Bytes) (e : Ending) (rs rs' : List ℕ) (out : Bytes)
    → read_until_lf (conn input e rs out)
      ≡ (done (b ∷ bs), conn (payload ++ c0 ∷ c1 ∷ rest) e rs out)
    → parse_chunk_size (b ∷ bs) ≡ some (suc k)
    → forward (suc k) (suc k) (conn (payload ++ c0 ∷ c1 ∷ rest) e rs (out ++ b ∷ bs))
      ≡ (done tt, conn (c0 ∷ c1 ∷ rest) e rs' ((out ++ b ∷ bs) ++ payload))
    → pass_through_chunked (suc f) (conn input e rs out)
      ≡ pass_through_chunked f (conn rest e rs' (((out ++ b ∷ bs) ++ payload) ++ c0 ∷ c1 ∷ []))
unfolding pass_through_chunked
pass_round f b k c0 c1 bs input payload rest e rs rs' out line size copied = rw (
  line,
  write_all_lem,
  size,
  copied,
  read_exact-length e rs' _ (c0 ∷ c1 ∷ []) rest,
  write_all_lem,
)

-- One round of `read_chunked_body`.
pub read_round :
    (f max_size b k c0 c1 : ℕ) (bs input payload rest : Bytes) (e : Ending) (rs : List ℕ)
    (out body : Bytes)
    → read_until_lf (conn input e rs out)
      ≡ (done (b ∷ bs), conn (payload ++ c0 ∷ c1 ∷ rest) e rs out)
    → parse_chunk_size (b ∷ bs) ≡ some (suc k)
    → suc k ≡ length payload
    → exceeds max_size (length body) (suc k) ≡ false
    → capacity_overflow (suc k) ≡ false
    → read_chunked_body (suc f) max_size body (conn input e rs out)
      ≡ read_chunked_body f max_size (body ++ payload) (conn rest e rs out)
unfolding read_chunked_body
read_round f max_size b k c0 c1 bs input payload rest e rs out body line size len small fits = rw (
  line,
  size,
  small,
  fits,
  len,
  read_exact-length e rs out payload (c0 ∷ c1 ∷ rest),
  read_exact-length e rs out (c0 ∷ c1 ∷ []) rest,
)

-- Behind the last chunk's size line both loops take one more line, and end.
pub pass_last :
    (f b : ℕ) (bs input trailer rest : Bytes) (e : Ending) (rs : List ℕ) (out : Bytes)
    → read_until_lf (conn input e rs out) ≡ (done (b ∷ bs), conn (trailer ++ lf ∷ rest) e rs out)
    → parse_chunk_size (b ∷ bs) ≡ some 0
    → Lacks lf trailer
    → pass_through_chunked (suc f) (conn input e rs out)
      ≡ (done tt, conn rest e rs ((out ++ b ∷ bs) ++ (trailer ++ lf ∷ [])))
unfolding pass_through_chunked
pass_last f b bs input trailer rest e rs out line size one = rw (
  line,
  write_all_lem,
  size,
  read_until_lf-line e rs (out ++ b ∷ bs) trailer rest one,
  write_all_lem,
)

pub read_last :
    (f max_size b : ℕ) (bs input trailer rest : Bytes) (e : Ending) (rs : List ℕ) (out body : Bytes)
    → read_until_lf (conn input e rs out) ≡ (done (b ∷ bs), conn (trailer ++ lf ∷ rest) e rs out)
    → parse_chunk_size (b ∷ bs) ≡ some 0
    → Lacks lf trailer
    → read_chunked_body (suc f) max_size body (conn input e rs out)
      ≡ (done body, conn rest e rs out)
unfolding read_chunked_body
read_last f max_size b bs input trailer rest e rs out body line size one =
    rw (line, size, read_until_lf-line e rs out trailer rest one)
