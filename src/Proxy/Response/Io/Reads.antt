-- ===== src/Proxy/Response/Io/Reads.antt =====
-- How the network cuts the origin's stream has no part in what the task does.
use dlna_proxy.Common.{
  ℕ, suc, ◌≤◌, Option, none, some, List, [], inl, inr, ◌≡◌, refl, sym, ap, ◌∙◌, leb, length,
  Bool-cases, ◌||◌,
}
use dlna_proxy.Text.{Bytes, Str}
use dlna_proxy.Net.{
  Ending, eof, reset, M, read_until_lf, read_exact, write_all, copy, copy_end, has_lf, is_eof,
}
use dlna_proxy.Proxy.Chunk.{forward}
use dlna_proxy.Proxy.Response.{proxy_response_with_rewrite}
use dlna_proxy.Proxy.Response.Io.{
  Io, returns, fails, panics, exhausts, reads_line, reads_exact, writes, copies, forwards, binds,
  sized,
}
use dlna_proxy.Proxy.Response.Io.Programs.{proxy_response_with_rewrite-Io}
use dlna_proxy.Proxy.Response.Io.Cut.{conn_with}
use dlna_proxy.Proxy.Response.Io.View.{IsBlind, bind-IsBlind, outcome_of, sent_of, view_parts}
use dlna_proxy.Proxy.Response.Io.Forward.{forward-forward_all}

forwards-IsBlind : (f n : ℕ) → n ≤ f → IsBlind (forward f n)
forwards-IsBlind f n h i e rs rs' o k =
    forward-forward_all f n i e rs o k h ∙ sym (forward-forward_all f n i e rs' o k h)

reads_line-IsBlind : IsBlind read_until_lf
unfolding read_until_lf
reads_line-IsBlind i e rs rs' o k = elim (Bool-cases (has_lf i || is_eof e)) [
  | inl whole ↦ rw whole
  | inr none_left ↦ rw none_left
]

reads_exact-IsBlind : (n : ℕ) → IsBlind (read_exact n)
unfolding read_exact
reads_exact-IsBlind n i e rs rs' o k = elim (Bool-cases (leb n (length i))) [
  | inl enough ↦ rw enough
  | inr few ↦ rw few
]

writes-IsBlind : (bs : Bytes) → IsBlind (write_all bs)
unfolding write_all
writes-IsBlind bs i e rs rs' o none = refl
writes-IsBlind bs i e rs rs' o (some k) = elim (Bool-cases (leb (length bs) k)) [
  | inl fits ↦ rw fits
  | inr over ↦ rw over
]

copy_end-IsBlind : (e : Ending) → IsBlind (copy_end e)
unfolding copy_end
copy_end-IsBlind eof i e rs rs' o k = refl
copy_end-IsBlind reset i e rs rs' o k = refl

copies-IsBlind : IsBlind copy
unfolding copy
copies-IsBlind i e rs rs' o k =
    bind-IsBlind _ _ (λ _. copy_end e) (writes-IsBlind i [] e rs rs' o k) (λ _. copy_end-IsBlind e)

pub Io-IsBlind : {A : Type 0} {m : M A} → Io A m → IsBlind m
Io-IsBlind (returns a) i e rs rs' o k = refl
Io-IsBlind (fails x) i e rs rs' o k = refl
Io-IsBlind panics i e rs rs' o k = refl
Io-IsBlind exhausts i e rs rs' o k = refl
Io-IsBlind reads_line i e rs rs' o k = reads_line-IsBlind i e rs rs' o k
Io-IsBlind (reads_exact n) i e rs rs' o k = reads_exact-IsBlind n i e rs rs' o k
Io-IsBlind (writes bs) i e rs rs' o k = writes-IsBlind bs i e rs rs' o k
Io-IsBlind copies i e rs rs' o k = copies-IsBlind i e rs rs' o k
Io-IsBlind (forwards f n h) i e rs rs' o k = forwards-IsBlind f n h i e rs rs' o k
Io-IsBlind (binds p q) i e rs rs' o k =
    bind-IsBlind _ _ _ (Io-IsBlind p i e rs rs' o k) (λ a. Io-IsBlind (q a))
Io-IsBlind (sized p) i e rs rs' o k = Io-IsBlind (p (suc (length i))) i e rs rs' o k

-- However the network cuts the origin's stream, well formed or not, and whatever the client takes: the task ends
-- in the same way, and has sent the same bytes.
pub proxy_response_with_rewrite-reads :
    (origin proxy : Str) (i : Bytes) (e : Ending) (rs rs' : List ℕ) (k : Option ℕ)
    → let r = proxy_response_with_rewrite origin proxy (conn_with i e rs [] k) in
      let r' = proxy_response_with_rewrite origin proxy (conn_with i e rs' [] k) in
      (r.0 ≡ r'.0) × (r.1.sent ≡ r'.1.sent)
proxy_response_with_rewrite-reads origin proxy i e rs rs' k =
    let same = Io-IsBlind (proxy_response_with_rewrite-Io origin proxy) i e rs rs' [] k in
    let (x, s) = view_parts (proxy_response_with_rewrite origin proxy (conn_with i e rs [] k)) in
    let (x', s') = view_parts (proxy_response_with_rewrite origin proxy (conn_with i e rs' [] k)) in
    (sym x ∙ ap outcome_of same ∙ x', sym s ∙ ap sent_of same ∙ s')
