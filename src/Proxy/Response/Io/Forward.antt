-- ===== src/Proxy/Response/Io/Forward.antt =====
-- The loop of tcp_proxy.rs that copies a counted body, in one piece.
use dlna_proxy.Common.{
  ℕ, zero, suc, ◌-◌, ◌≤◌, ◌<◌, min, Bool, true, false, Option, none, some, List, [], ◌∷◌, ◌++◌,
  append_assoc, append-nil, ◌⊎◌, inl, inr, ◌≡◌, refl, sym, ap, ◌∙◌, arith, leb, length,
  length-append, length-take, take, drop, take-append, drop-append, take-append-drop, Bool-cases,
}
use dlna_proxy.Text.{Bytes}
use dlna_proxy.Net.{
  Conn, Ending, eof, reset, done, failed, broken_pipe, connection_reset, M, pure, fail,
  bind_outcome, ◌>>◌, read, write_all,
}
use dlna_proxy.Net.Laws.{read_piece}
use dlna_proxy.Proxy.Chunk.{forward}
use dlna_proxy.Proxy.Response.Io.Cut.{conn_with, take_within}
use dlna_proxy.Proxy.Response.Io.View.{goes_on, stops, view, IsBlind}

-- the copying loop in one piece
forward_end : Bool → Ending → M (Unit {0})
forward_end true e = pure tt
forward_end false eof = pure tt
forward_end false reset = fail connection_reset

pub forward_all : ℕ → M (Unit {0})
forward_all n c =
    (do write_all (take n c.input); forward_end (leb n (length c.input)) c.ending)
      (record c { input = drop n c.input })

-- the room behind `n` bytes that fit
abbrev less : Option ℕ → ℕ → Option ℕ
less none n = none
less (some k) n = some (k - n)

abbrev HasRoom : Option ℕ → ℕ → Type 0
HasRoom none n = Unit
HasRoom (some k) n = n ≤ k

write_fits :
    (bs i : Bytes) (e : Ending) (rs : List ℕ) (o : Bytes) (k : Option ℕ)
    → HasRoom k (length bs)
    → write_all bs (conn_with i e rs o k)
      ≡ (done tt, conn_with i e rs (o ++ bs) (less k (length bs)))
unfolding write_all
write_fits bs i e rs o none h = refl
write_fits bs i e rs o (some k) h = let fits : leb (length bs) k ≡ true = ground arith in rw fits

write_over :
    (bs i : Bytes) (e : Ending) (rs : List ℕ) (o : Bytes) (k : ℕ)
    → k < length bs
    → write_all bs (conn_with i e rs o (some k))
      ≡ (failed broken_pipe, conn_with i e rs (o ++ take k bs) (some 0))
unfolding write_all
write_over bs i e rs o k h = let over : leb (length bs) k ≡ false = ground arith in rw over

room-cases : (k : Option ℕ) (n : ℕ) → HasRoom k n ⊎ ((r : ℕ) × (k ≡ some r) × (r < n))
room-cases none n = inl tt
room-cases (some k) n = elim (Bool-cases (leb n k)) [
  | inl fits ↦ inl (ground arith)
  | inr over ↦ inr (k, refl, ground arith)
]

forward_end-IsBlind : (b : Bool) (e : Ending) → IsBlind (forward_end b e)
unfolding forward_end
forward_end-IsBlind true e i e' rs rs' o k = refl
forward_end-IsBlind false eof i e' rs rs' o k = refl
forward_end-IsBlind false reset i e' rs rs' o k = refl

write_later :
    (front t i : Bytes) (e : Ending) (rs : List ℕ) (o : Bytes) (k : Option ℕ)
    (f : Unit {0} → M (Unit {0}))
    → HasRoom k (length front)
    → view (bind_outcome (write_all t (conn_with i e rs (o ++ front) (less k (length front)))) f)
      ≡ view (bind_outcome (write_all (front ++ t) (conn_with i e rs o k)) f)
write_later front t i e rs o none f h = rw (
  write_fits t i e rs (o ++ front) none tt,
  write_fits (front ++ t) i e rs o none tt,
  append_assoc,
)
write_later front t i e rs o (some r) f h =
    let sum = length-append front t in
    elim (Bool-cases (leb (length (front ++ t)) r)) [
      | inl fits ↦
          let all : length (front ++ t) ≤ r = ground arith in
          let left : r - length front - length t ≡ r - length (front ++ t) = omega (arith, sum) in
          rw (
            write_fits t i e rs (o ++ front) (some (r - length front)) (omega (arith, sum)),
            write_fits (front ++ t) i e rs o (some r) all,
            append_assoc,
            left,
          )
      | inr over ↦
          let part : r < length (front ++ t) = ground arith in
          rw (
            write_over t i e rs (o ++ front) (r - length front) (omega (arith, sum)),
            write_over (front ++ t) i e rs o r part,
            append_assoc,
            take-append r front t h,
          )
    ]

-- A first part that fits, then the rest.
all_later :
    (n : ℕ) (front rest : Bytes) (e : Ending) (rs : List ℕ) (o : Bytes) (k : Option ℕ)
    → length front ≤ n
    → HasRoom k (length front)
    → view
        (forward_all (n - length front) (conn_with rest e rs (o ++ front) (less k (length front))))
      ≡ view (forward_all n (conn_with (front ++ rest) e rs o k))
unfolding forward_all
all_later n front rest e rs o k h r =
    let same : leb n (length (front ++ rest)) ≡ leb (n - length front) (length rest) =
      ground (arith, length-append front rest) in
    rw (take-append n front rest h, drop-append n front rest h, same)
      (write_later front (take (n - length front) rest) (drop (n - length front) rest) e rs o k _ r)

-- A first part that does not fit.
all_over :
    (n : ℕ) (front rest : Bytes) (e : Ending) (rs : List ℕ) (o : Bytes) (r : ℕ)
    → length front ≤ n
    → r < length front
    → view (forward_all n (conn_with (front ++ rest) e rs o (some r)))
      ≡ stops (failed broken_pipe) (o ++ take r front)
unfolding forward_all
all_over n front rest e rs o r h over =
    let t = take (n - length front) rest in
    rw (
      take-append n front rest h,
      write_over (front ++ t) (drop n (front ++ rest)) e rs o r
          (omega (arith, length-append front t)),
      take_within r front t (omega arith),
    )

write_nil :
    (i : Bytes) (e : Ending) (rs : List ℕ) (o : Bytes) (k : Option ℕ)
    → write_all [] (conn_with i e rs o k) ≡ (done tt, conn_with i e rs o k)
unfolding write_all
write_nil i e rs o none = rw append-nil
write_nil i e rs o (some k) =
    let fits : leb 0 k ≡ true = ground arith in
    let same : k - 0 ≡ k = omega arith in rw (fits, same, append-nil)

forward_all-zero :
    (i : Bytes) (e : Ending) (rs : List ℕ) (o : Bytes) (k : Option ℕ)
    → view (forward_all 0 (conn_with i e rs o k)) ≡ goes_on tt i e o k
unfolding forward_all forward_end
forward_all-zero i e rs o k =
    let none_missing : leb 0 (length i) ≡ true = ground arith in
    rw (write_nil i e rs o k, none_missing)

-- At the end of the stream, with bytes still wanted.
forward_ended :
    (f n : ℕ) (e : Ending) (rs : List ℕ) (o : Bytes) (k : Option ℕ)
    → view (forward (suc f) (suc n) (conn_with [] e rs o k))
      ≡ view (forward_all (suc n) (conn_with [] e [] o k))
unfolding forward forward_all forward_end read
forward_ended f n eof rs o k =
    let missing : leb (suc n) 0 ≡ false = ground arith in rw (write_nil [] eof [] o k, missing)
forward_ended f n reset rs o k =
    let missing : leb (suc n) 0 ≡ false = ground arith in rw (write_nil [] reset [] o k, missing)

-- One round, once it is known what the read returns.
forward-read :
    (f n b : ℕ) (got left i : Bytes) (e : Ending) (rs later : List ℕ) (o : Bytes) (k : Option ℕ)
    → read (min (suc n) 8192) (conn_with i e rs o k) ≡ (done (b ∷ got), conn_with left e later o k)
    → forward (suc f) (suc n) (conn_with i e rs o k)
      ≡ bind_outcome
          (write_all (b ∷ got) (conn_with left e later o k))
          (λ _. forward f (suc n - length (b ∷ got)))
unfolding forward
forward-read f n b got left i e rs later o k h = rw h

forward_zero : (f : ℕ) (c : Conn) → forward f 0 c ≡ (done tt, c)
unfolding forward
forward_zero zero c = refl
forward_zero (suc f) c = refl

-- A round, and the rest of the loop in one piece.
forward_step :
    (f n b : ℕ) (got rest i : Bytes) (e : Ending) (rs later : List ℕ) (o : Bytes) (k : Option ℕ)
    → i ≡ (b ∷ got) ++ rest
    → length (b ∷ got) ≤ suc n
    → read (min (suc n) 8192) (conn_with i e rs o k) ≡ (done (b ∷ got), conn_with rest e later o k)
    → ((o : Bytes) (k : Option ℕ)
        → view (forward f (suc n - length (b ∷ got)) (conn_with rest e later o k))
          ≡ view (forward_all (suc n - length (b ∷ got)) (conn_with rest e [] o k)))
    → view (forward (suc f) (suc n) (conn_with i e rs o k))
      ≡ view (forward_all (suc n) (conn_with i e [] o k))
forward_step f n b got rest i e rs later o k whole short returned ih =
    let front = b ∷ got in
    rw (forward-read f n b got rest i e rs later o k returned, whole)
      (elim (room-cases k (length front)) [
        | inl room ↦ rw (write_fits front rest e later o k room) (
            ih (o ++ front) (less k (length front))
            ∙ all_later (suc n) front rest e [] o k short room)
        | inr (r, is, over) ↦
            rw (is, write_over front rest e later o r over)
              (sym (all_over (suc n) front rest e [] o r short over))
      ])

pub forward-forward_all :
    (f n : ℕ) (i : Bytes) (e : Ending) (rs : List ℕ) (o : Bytes) (k : Option ℕ)
    → n ≤ f
    → view (forward f n (conn_with i e rs o k)) ≡ view (forward_all n (conn_with i e [] o k))
forward-forward_all f zero i e rs o k h =
    rw (forward_zero f (conn_with i e rs o k)) (sym (forward_all-zero i e [] o k))
forward-forward_all zero (suc n) i e rs o k h = absurd (omega arith)
forward-forward_all (suc f) (suc n) [] e rs o k h = forward_ended f n e rs o k
forward-forward_all (suc f) (suc n) (b ∷ bs) e rs o k h =
    let (j, later, below, got) = read_piece (min (suc n) 8192) b bs e rs o k (omega arith) in
    forward_step f n b (take j bs) (drop j bs) (b ∷ bs) e rs later o k
      (sym (ap (◌∷◌ b) (take-append-drop j bs))) (omega (arith, length-take j bs)) got
      λ o k.
        forward-forward_all f (suc n - suc (length (take j bs))) (drop j bs) e later o k
          (omega arith)
