-- ===== src/Proxy/Response/Io/Room.antt =====
-- A client that stops taking bytes: what it has got is the start of what a client that takes all would get.
use dlna_proxy.Common.{
  ℕ, zero, suc, ◌-◌, ◌≤◌, ◌<◌, min, none, some, List, [], ◌∷◌, ◌⊎◌, inl, inr, ◌≡◌, refl, sym, ap,
  ◌∙◌, arith, leb, length, take, Bool-cases, ◌||◌,
}
use dlna_proxy.Text.{Bytes, Str}
use dlna_proxy.Net.{
  Ending, eof, reset, done, failed, panicked, no_fuel, broken_pipe, connection_reset, M,
  read_until_lf, read_exact, read, write_all, copy, copy_end, has_lf, is_eof,
}
use dlna_proxy.Proxy.Chunk.{forward}
use dlna_proxy.Proxy.Response.{proxy_response_with_rewrite}
use dlna_proxy.Proxy.Response.Io.{
  Io, returns, fails, panics, exhausts, reads_line, reads_exact, writes, copies, forwards, binds,
  sized,
}
use dlna_proxy.Proxy.Response.Io.Programs.{proxy_response_with_rewrite-Io}
use dlna_proxy.Proxy.Response.Io.Cut.{conn_with, IsClipped, silent, Cut-bind}

reads_line-IsClipped : IsClipped read_until_lf
unfolding read_until_lf
reads_line-IsClipped i e rs o k = elim (Bool-cases (has_lf i || is_eof e)) [
  | inl whole ↦ rw whole (silent (done _) _ e rs o k)
  | inr none_left ↦ rw none_left (silent (failed connection_reset) [] e rs o k)
]

reads_exact-IsClipped : (n : ℕ) → IsClipped (read_exact n)
unfolding read_exact
reads_exact-IsClipped n i e rs o k = elim (Bool-cases (leb n (length i))) [
  | inl enough ↦ rw enough (silent (done _) _ e rs o k)
  | inr few ↦ rw few (silent (failed _) [] e rs o k)
]

reads-IsClipped : (n : ℕ) → IsClipped (read n)
unfolding read
reads-IsClipped n [] eof rs o k = silent (done []) [] eof rs o k
reads-IsClipped n [] reset rs o k = silent (failed connection_reset) [] reset rs o k
reads-IsClipped n (b ∷ bs) e rs o k = silent (done _) _ e _ o k

writes-IsClipped : (bs : Bytes) → IsClipped (write_all bs)
unfolding write_all
writes-IsClipped bs i e rs o k = elim (Bool-cases (leb (length bs) k)) [
  | inl fits ↦
      rw fits (record { more = bs; grown = refl; free = refl; cut = inl (ground arith, refl) })
  | inr over ↦
      rw over
        (record { more = bs; grown = refl; free = refl; cut = inr (ground arith, refl, refl) })
]

copy_end-IsClipped : (e : Ending) → IsClipped (copy_end e)
unfolding copy_end
copy_end-IsClipped eof i e rs o k = silent (done tt) i e rs o k
copy_end-IsClipped reset i e rs o k = silent (failed connection_reset) i e rs o k

copies-IsClipped : IsClipped copy
unfolding copy
copies-IsClipped i e rs o k =
    Cut-bind k o _ (λ _. copy_end-IsClipped e) _ _ (writes-IsClipped i [] e rs o k)

forwards-IsClipped : (f n : ℕ) → n ≤ f → IsClipped (forward f n)
unfolding forward
forwards-IsClipped zero zero h i e rs o k = silent (done tt) i e rs o k
forwards-IsClipped zero (suc n) h i e rs o k = absurd (omega arith)
forwards-IsClipped (suc f) zero h i e rs o k = silent (done tt) i e rs o k
forwards-IsClipped (suc f) (suc n) h i e rs o k =
    Cut-bind k o _
      (elim [
        | [] ↦ λ i e rs o k. silent (done tt) i e rs o k
        | b ∷ more ↦ λ i e rs o k.
            Cut-bind k o _ (λ _. forwards-IsClipped f (suc n - suc (length more)) (omega arith)) _ _
              (writes-IsClipped (b ∷ more) i e rs o k)
      ])
      _ _ (reads-IsClipped (min (suc n) 8192) i e rs o k)

pub Io-IsClipped : {A : Type 0} {m : M A} → Io A m → IsClipped m
Io-IsClipped (returns a) i e rs o k = silent (done a) i e rs o k
Io-IsClipped (fails x) i e rs o k = silent (failed x) i e rs o k
Io-IsClipped panics i e rs o k = silent panicked i e rs o k
Io-IsClipped exhausts i e rs o k = silent no_fuel i e rs o k
Io-IsClipped reads_line i e rs o k = reads_line-IsClipped i e rs o k
Io-IsClipped (reads_exact n) i e rs o k = reads_exact-IsClipped n i e rs o k
Io-IsClipped (writes bs) i e rs o k = writes-IsClipped bs i e rs o k
Io-IsClipped copies i e rs o k = copies-IsClipped i e rs o k
Io-IsClipped (forwards f n h) i e rs o k = forwards-IsClipped f n h i e rs o k
Io-IsClipped (binds p q) i e rs o k =
    Cut-bind k o _ (λ a. Io-IsClipped (q a)) _ _ (Io-IsClipped p i e rs o k)
Io-IsClipped (sized p) i e rs o k = Io-IsClipped (p (suc (length i))) i e rs o k

-- A client that takes only `k` bytes: if all that is to be sent fits, the run is the same as with a client that
-- takes every byte. If not, the client has got exactly the first `k` of those bytes, and the task ends with a
-- broken pipe. This holds for every stream of the origin, well formed or not.
pub proxy_response_with_rewrite-room :
    (origin proxy : Str) (i : Bytes) (e : Ending) (rs : List ℕ) (k : ℕ)
    → let whole = proxy_response_with_rewrite origin proxy (conn_with i e rs [] none) in
      let bounded = proxy_response_with_rewrite origin proxy (conn_with i e rs [] (some k)) in
      ((length whole.1.sent ≤ k) × (bounded.0 ≡ whole.0) × (bounded.1.sent ≡ whole.1.sent))
      ⊎ ((k < length whole.1.sent)
          × (bounded.0 ≡ failed broken_pipe)
          × (bounded.1.sent ≡ take k whole.1.sent))
proxy_response_with_rewrite-room origin proxy i e rs k =
    let c = Io-IsClipped (proxy_response_with_rewrite-Io origin proxy) i e rs [] k in
    elim c.cut [
      | inl all ↦ inl (rw c.grown all.0, ap (λ r. r.0) all.1, ap (λ r. r.1.sent) all.1)
      | inr part ↦ inr (rw c.grown part.0, part.1, part.2 ∙ ap (take k) (sym c.grown))
    ]
