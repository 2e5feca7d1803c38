-- ===== src/Proxy/Chunk/Limit.antt =====
-- The size limit of `read_chunked_body`: what it guarantees, and where its test wraps around.
use dlna_proxy.Common.{
  ℕ, zero, suc, ◌+◌, ◌-◌, ◌^◌, ◌≤◌, ◌<◌, true, false, some, List, [], ◌∷◌, ◌++◌, ◌≡◌, refl, arith,
  length, length-take, length-append, Lacks, Bool-cases, inl, inr,
}
use dlna_proxy.Text.{Bytes, lf}
use dlna_proxy.Net.{
  Conn, Ending, Outcome, done, failed, panicked, no_fuel, M, bind_outcome, ◌>>=◌, ◌>>◌,
  read_until_lf, read_exact,
}
use dlna_proxy.Net.Laws.{conn, read_until_lf-line}
use dlna_proxy.Proxy.Chunk.{
  parse_chunk_size, or_invalid, limit_check, allocate, exceeds, capacity_overflow, isize_max,
  read_chunked_body,
}

-- A result is within the limit, if there is one.
abbrev Within : ℕ → Outcome Bytes × Conn → Type 0
Within n (done b, c) = length b ≤ n
Within n (failed e, c) = Unit
Within n (panicked, c) = Unit
Within n (no_fuel, c) = Unit

Within-bind :
    {A : Type 0} (n : ℕ) (r : Outcome A × Conn) (f : A → M Bytes)
    → ((a : A) (c : Conn) → Within n (f a c))
    → Within n (bind_outcome r f)
Within-bind n (done a, c) f h = h a c
Within-bind n (failed e, c) f h = tt
Within-bind n (panicked, c) f h = tt
Within-bind n (no_fuel, c) f h = tt

abbrev Exactly : ℕ → Outcome Bytes × Conn → Type 0
Exactly n (done b, c) = length b ≡ n
Exactly n (failed e, c) = Unit
Exactly n (panicked, c) = Unit
Exactly n (no_fuel, c) = Unit

read_exact-Exactly : (n : ℕ) (c : Conn) → Exactly n (read_exact n c)
unfolding read_exact
read_exact-Exactly n c = ground (arith, length-take n c.input)

Exactly-bind :
    (k n : ℕ) (r : Outcome Bytes × Conn) (f : Bytes → M Bytes)
    → Exactly k r
    → ((b : Bytes) (c : Conn) → length b ≡ k → Within n (f b c))
    → Within n (bind_outcome r f)
Exactly-bind k n (done b, c) f e h = h b c e
Exactly-bind k n (failed x, c) f e h = tt
Exactly-bind k n (panicked, c) f e h = tt
Exactly-bind k n (no_fuel, c) f e h = tt

-- Both tests together leave no room for a sum that wraps around.
passes_tests :
    (max_size len n : ℕ)
    → max_size ≤ isize_max
    → len ≤ max_size
    → exceeds max_size len n ≡ false
    → capacity_overflow n ≡ false
    → len + n ≤ max_size
unfolding exceeds capacity_overflow
passes_tests max_size len n small fits a b = ground arith

chunk-Within :
    (max_size k : ℕ) (body : Bytes) (c : Conn) (next : Bytes → M Bytes)
    → max_size ≤ isize_max
    → length body ≤ max_size
    → ((b : Bytes) (c : Conn) → length b ≤ max_size → Within max_size (next b c))
    → Within max_size (
        (do
          limit_check (exceeds max_size (length body) (suc k))
          allocate (suc k)
          chunk ← read_exact (suc k)
          crlf ← read_exact 2
          next (body ++ chunk))
          c)
chunk-Within max_size k body c next small fits h =
    elim (Bool-cases (exceeds max_size (length body) (suc k))) [
      | inl over ↦ rw over tt
      | inr under ↦ elim (Bool-cases (capacity_overflow (suc k))) [
        | inl big ↦ rw (under, big) tt
        | inr small_chunk ↦
            rw (under, small_chunk)
              (let sum = passes_tests max_size (length body) (suc k) small fits under small_chunk in
                Exactly-bind (suc k) max_size (read_exact (suc k) c) _
                  (read_exact-Exactly (suc k) c)
                  λ chunk c1 e.
                    Within-bind max_size (read_exact 2 c1) _
                      λ crlf c2. h (body ++ chunk) c2 (omega (arith, length-append body chunk)))
      ]
    ]

read_chunked_body-Within :
    (f max_size : ℕ) (body : Bytes) (c : Conn)
    → max_size ≤ isize_max
    → length body ≤ max_size
    → Within max_size (read_chunked_body f max_size body c)
unfolding read_chunked_body
read_chunked_body-Within zero max_size body c small fits = tt
read_chunked_body-Within (suc f) max_size body c small fits =
    Within-bind max_size (read_until_lf c) _ (elim [
      | [] ↦ λ c1. fits
      | b ∷ more ↦ λ c1.
          Within-bind max_size (or_invalid (parse_chunk_size (b ∷ more)) c1) _ (elim [
            | zero ↦ λ c2. Within-bind max_size (read_until_lf c2) _ (λ trailer c3. fits)
            | suc k ↦ λ c2.
                chunk-Within max_size k body c2 (read_chunked_body f max_size) small fits
                  λ body' c3 fits'. read_chunked_body-Within f max_size body' c3 small fits'
          ])
    ])

-- Whatever the origin sends, a body that is read is within the limit, for every limit that a buffer can have.
pub read_chunked_body-limit :
    (f max_size : ℕ) (c c' : Conn) (body : Bytes)
    → max_size ≤ isize_max
    → read_chunked_body f max_size [] c ≡ (done body, c')
    → length body ≤ max_size
read_chunked_body-limit f max_size c c' body small e =
    rw e at (read_chunked_body-Within f max_size [] c small (omega arith))

overflow_round :
    (f max_size b k : ℕ) (bs body input rest : Bytes) (e : Ending) (rs : List ℕ) (out : Bytes)
    → read_until_lf (conn input e rs out) ≡ (done (b ∷ bs), conn rest e rs out)
    → parse_chunk_size (b ∷ bs) ≡ some (suc k)
    → exceeds max_size (length body) (suc k) ≡ false
    → capacity_overflow (suc k) ≡ true
    → read_chunked_body (suc f) max_size body (conn input e rs out) ≡ (panicked, conn rest e rs out)
unfolding read_chunked_body
overflow_round f max_size b k bs body input rest e rs out line size passed big =
    rw (line, size, passed, big)

wrapped :
    (max_size len n : ℕ)
    → 2 ^ 64 ≤ len + n
    → len + n ≤ 2 ^ 64 + max_size
    → max_size ≤ isize_max
    → exceeds max_size len n ≡ false
unfolding exceeds
wrapped max_size len n wraps below small = ground arith

oversized : (n : ℕ) → isize_max < n → capacity_overflow n ≡ true
unfolding capacity_overflow
oversized n h = ground arith

line_cons : (l : Bytes) → (b : ℕ) × (bs : Bytes) × (l ++ lf ∷ [] ≡ b ∷ bs)
line_cons [] = (lf, [], refl)
line_cons (b ∷ l) = (b, l ++ lf ∷ [], refl)

-- With something read, a chunk size that makes the sum of the sizes wrap around passes the test of the limit, and
-- the task panics at the allocation.
pub read_chunked_body_overflow :
    (f max_size n : ℕ) (body line rest : Bytes) (e : Ending) (rs : List ℕ) (out : Bytes)
    → max_size ≤ isize_max
    → length body ≤ max_size
    → 2 ^ 64 ≤ length body + n
    → length body + n ≤ 2 ^ 64 + max_size
    → Lacks lf line
    → parse_chunk_size (line ++ lf ∷ []) ≡ some n
    → read_chunked_body (suc f) max_size body (conn (line ++ lf ∷ rest) e rs out)
      ≡ (panicked, conn rest e rs out)
read_chunked_body_overflow f max_size n body line rest e rs out small fits wraps below one size =
    let (b, bs, cons) = line_cons line in
    let is : n ≡ suc (n - 1) = omega arith in
    overflow_round f max_size b (n - 1) bs body _ rest e rs out
      (rw cons at (read_until_lf-line e rs out line rest one)) (rw (cons, is) at size)
      (rw is at (wrapped max_size (length body) n wraps below small))
      (rw is at (oversized n (omega arith)))
