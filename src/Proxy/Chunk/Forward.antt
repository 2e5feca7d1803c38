-- ===== src/Proxy/Chunk/Forward.antt =====
-- The copying loop of tcp_proxy.rs: what it forwards does not depend on how the network cuts the stream.
use dlna_proxy.Common.{
  ℕ, zero, suc, ◌-◌, ◌≤◌, ◌<◌, min, leb, Bool-cases, List, [], ◌∷◌, ◌++◌, append_assoc, append-nil,
  ◌⊎◌, inl, inr, ◌≡◌, refl, sym, ap, ◌∙◌, arith, length, take, drop, length-append, take-append,
  drop-append, take-length-append, drop-length-append,
}
use dlna_proxy.Text.{Bytes}
use dlna_proxy.Net.{Conn, Ending, eof, reset, Outcome, done, failed, connection_reset, read}
use dlna_proxy.Net.Laws.{conn, Part, read-Part, write_all_lem, read_end_lem}
use dlna_proxy.Proxy.Chunk.{forward}

-- One round, once it is known what the `read` returns.
forward_round :
    (f k b : ℕ) (bs : Bytes) (p : Part (min (suc k) 8192) (b ∷ bs)) (e : Ending) (rs : List ℕ)
    (out : Bytes)
    → read (min (suc k) 8192) (conn (b ∷ bs) e rs out)
      ≡ (done (p.first ∷ p.got), conn p.left e p.later out)
    → forward (suc f) (suc k) (conn (b ∷ bs) e rs out)
      ≡ forward f (suc k - suc (length p.got)) (conn p.left e p.later (out ++ p.first ∷ p.got))
unfolding forward
forward_round f k b bs p e rs out h = rw (h, write_all_lem)

-- The states after two ways to the same bytes.
conn-eq :
    {x : Outcome (Unit {0})} {i i' o o' : Bytes} (e : Ending) (rs : List ℕ)
    → i ≡ i'
    → o ≡ o'
    → ◌≡◌ {A = Outcome (Unit {0}) × Conn} (x, conn i e rs o) (x, conn i' e rs o')
conn-eq e rs p q = cc

-- The first part and the start of what is left make up the start of the input.
Part-append :
    {m : ℕ} {input : Bytes} (n : ℕ) (p : Part m input) (out : Bytes)
    → m ≤ n
    → (out ++ p.first ∷ p.got) ++ take (n - suc (length p.got)) p.left ≡ out ++ take n input
Part-append n p out h =
    rw (append_assoc, p.parts)
      (ap (◌++◌ out) (sym (take-append n (p.first ∷ p.got) p.left (omega (arith, p.bounded)))))

Part-drop :
    {m : ℕ} {input : Bytes} (n : ℕ) (p : Part m input)
    → m ≤ n
    → drop (n - suc (length p.got)) p.left ≡ drop n input
Part-drop n p h =
    rw p.parts (sym (drop-append n (p.first ∷ p.got) p.left (omega (arith, p.bounded))))

Part-enough :
    {m : ℕ} {input : Bytes} {e : Ending} (n : ℕ) (p : Part m input)
    → (n ≤ length input) ⊎ (e ≡ eof)
    → (n - suc (length p.got) ≤ length p.left) ⊎ (e ≡ eof)
Part-enough n p (inl h) = inl (omega (arith, ap length p.parts, length-append p.got p.left))
Part-enough n p (inr h) = inr h

-- With a stream that holds `n` bytes, or that ends in an orderly way, the loop forwards exactly the
-- first `n` bytes (all, if there are fewer), and leaves the rest.
forward-take :
    (f n : ℕ) (input : Bytes) (e : Ending) (rs : List ℕ) (out : Bytes)
    → n ≤ f
    → (n ≤ length input) ⊎ (e ≡ eof)
    → (rs' : List ℕ) × (forward f n (conn input e rs out)
        ≡ (done tt, conn (drop n input) e rs' (out ++ take n input)))
unfolding forward
forward-take zero zero input e rs out h a = (rs, rw append-nil refl)
forward-take zero (suc n) input e rs out h a = absurd (omega arith)
forward-take (suc f) zero input e rs out h a = (rs, rw append-nil refl)
forward-take (suc f) (suc k) [] e rs out h a = elim a [
  | inl few ↦ absurd (omega arith)
  | inr ends ↦ (rs, rw (read_end_lem (min (suc k) 8192) e rs out ends, append-nil) refl)
]
forward-take (suc f) (suc k) (b ∷ bs) e rs out h a =
    let (p, got) = read-Part (min (suc k) 8192) b bs e rs out (omega arith) in
    let n = suc k - suc (length p.got) in
    let (rs', later) =
      forward-take f n p.left e p.later (out ++ p.first ∷ p.got) (omega arith)
        (Part-enough (suc k) p a) in
    (
      rs',
      forward_round f k b bs p e rs out got
          ∙ later
          ∙ conn-eq e rs' (Part-drop (suc k) p (omega arith))
              (Part-append (suc k) p out (omega arith)),
    )

-- A body that is there is forwarded whole.
pub forward-length :
    (f n : ℕ) (body rest : Bytes) (e : Ending) (rs : List ℕ) (out : Bytes)
    → n ≤ f
    → length body ≡ n
    → (rs' : List ℕ) × (forward f n (conn (body ++ rest) e rs out)
        ≡ (done tt, conn rest e rs' (out ++ body)))
forward-length f n body rest e rs out h size =
    let (rs', all) =
      forward-take f n (body ++ rest) e rs out h (inl (omega (arith, length-append body rest))) in
    (
      rs',
      all
          ∙ conn-eq e rs' (rw (← size) (drop-length-append body rest))
              (ap (◌++◌ out) (rw (← size) (take-length-append body rest))),
    )

Part-all :
    {m : ℕ} {input : Bytes} (p : Part m input) (out : Bytes)
    → (out ++ p.first ∷ p.got) ++ p.left ≡ out ++ input
Part-all p out = append_assoc out (p.first ∷ p.got) p.left ∙ ap (◌++◌ out) (sym p.parts)

-- how the loop ends when the stream does before the bytes are there
abbrev pub forwarded_end : Ending → Outcome (Unit {0})
forwarded_end eof = done tt
forwarded_end reset = failed connection_reset

-- With a stream that ends before `n` bytes, the loop forwards what there is.
pub forward_short :
    (f n : ℕ) (input : Bytes) (e : Ending) (rs : List ℕ) (out : Bytes)
    → n ≤ f
    → length input < n
    → (rs' : List ℕ) × (forward f n (conn input e rs out)
        ≡ (forwarded_end e, conn [] e rs' (out ++ input)))
unfolding forward read
forward_short zero n input e rs out h few = absurd (omega arith)
forward_short (suc f) zero input e rs out h few = absurd (omega arith)
forward_short (suc f) (suc k) [] eof rs out h few = (rs, rw append-nil refl)
forward_short (suc f) (suc k) [] reset rs out h few = (rs, rw append-nil refl)
forward_short (suc f) (suc k) (b ∷ bs) e rs out h few =
    let (p, got) = read-Part (min (suc k) 8192) b bs e rs out (omega arith) in
    let (rs', later) =
      forward_short f (suc k - suc (length p.got)) p.left e p.later (out ++ p.first ∷ p.got)
        (omega arith) (omega (arith, ap length p.parts, length-append p.got p.left)) in
    (rs', forward_round f k b bs p e rs out got ∙ later ∙ conn-eq e rs' refl (Part-all p out))

-- On every stream: if `n` bytes come, the loop forwards exactly these and leaves the rest. If the stream ends before,
-- the loop forwards what there is, and ends without an error at an orderly end and with one at a reset. How the
-- network cuts the stream has no part in this.
pub forward_stream :
    (f n : ℕ) (input : Bytes) (e : Ending) (rs : List ℕ) (out : Bytes)
    → n ≤ f
    → (rs' : List ℕ) × (((n ≤ length input)
          × (forward f n (conn input e rs out)
              ≡ (done tt, conn (drop n input) e rs' (out ++ take n input))))
        ⊎ ((length input < n)
            × (forward f n (conn input e rs out)
                ≡ (forwarded_end e, conn [] e rs' (out ++ input)))))
forward_stream f n input e rs out h = elim (Bool-cases (leb n (length input))) [
  | inl fits ↦
      let enough : n ≤ length input = ground arith in
      let (rs', all) = forward-take f n input e rs out h (inl enough) in (rs', inl (enough, all))
  | inr not_enough ↦
      let few : length input < n = ground arith in
      let (rs', all) = forward_short f n input e rs out h few in (rs', inr (few, all))
]
