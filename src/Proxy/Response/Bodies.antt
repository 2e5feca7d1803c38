-- ===== src/Proxy/Response/Bodies.antt =====
-- The body of a message: passed through, or read, rewritten and sent.
use dlna_proxy.Common.{
  ℕ, suc, ◌+◌, ◌≤◌, ◌<◌, true, false, some, List, [], ◌∷◌, ◌++◌, append_assoc, append-nil, ◌⊎◌, inl,
  inr, ◌≡◌, refl, arith, length, length-append,
}
use dlna_proxy.Text.{Bytes, Str, lf}
use dlna_proxy.Net.{Ending, done}
use dlna_proxy.Net.Laws.{conn, read_exact-length, write_all_lem}
use dlna_proxy.Proxy.Header.{Head}
use dlna_proxy.Proxy.Chunk.{isize_max}
use dlna_proxy.Proxy.Chunk.Forward.{forward-length}
use dlna_proxy.Proxy.Chunk.Body.{
  Chunk, Last, body_wire, payloads, pass_through_chunked-body_wire, read_chunked_body-body_wire,
  not-capacity_overflow,
}
use dlna_proxy.Proxy.Chunk.Coding.{chunked_wire, write_chunked_body_lem}
use dlna_proxy.Proxy.Response.{
  max_rewritable_body_size, passes, updated_headers, rewrite_body, pass_through, read_body,
  read_fixed_body, send_body, send_rewritten, rewrite_response,
}
use dlna_proxy.Proxy.Response.Message.{Body, fixed, chunked, framed, Announces, rewritten}

pub length-body_wire :
    (chs : List Chunk) (z : Last) (rest : Bytes)
    → length chs + length rest < length (body_wire chs z rest)
length-body_wire [] z rest = omega (
  arith,
  length-append z.size_text (lf ∷ (z.trailer ++ lf ∷ rest)),
  length-append z.trailer (lf ∷ rest),
)
length-body_wire (ch ∷ chs) z rest =
    let more = ch.close0 ∷ ch.close1 ∷ body_wire chs z rest in
    omega (
      arith,
      length-body_wire chs z rest,
      length-append ch.size_text (lf ∷ (ch.payload ++ more)),
      length-append ch.payload more,
    )

-- Pass-through of an announced body: its bytes, and nothing behind them.
pub pass_through-framed :
    (h : Head) (b : Body) (rest : Bytes) (e : Ending) (rs : List ℕ) (out : Bytes)
    → Announces h b
    → (rs' : List ℕ) × (pass_through h.is_chunked h.content_length (conn (framed b rest) e rs out)
        ≡ (done tt, conn rest e rs' (out ++ framed b [])))
unfolding pass_through
pass_through-framed h (fixed bs) rest e rs out a =
    let (rs', all) = forward-length (length bs) (length bs) bs rest e rs out (omega arith) refl in
    (rs', rw (a.0, a.1, append-nil bs) all)
pass_through-framed h (chunked chs z) rest e rs out a =
    let (rs', all) =
      pass_through_chunked-body_wire chs z (suc (length (body_wire chs z rest))) rest e rs out
        (omega (arith, length-body_wire chs z rest)) a.1 a.2 in
    (rs', rw a.0 all)

-- the bytes that a body carries
abbrev carried : Body → Bytes
carried (fixed bs) = bs
carried (chunked chs z) = payloads chs

-- how new content is framed
abbrev sent_as : Body → Bytes → Bytes
sent_as (fixed bs) new = new
sent_as (chunked chs z) new = chunked_wire new

pub passes-fits :
    (h : Head) (n : ℕ) → passes h ≡ false → h.content_length ≡ some n → n ≤ max_rewritable_body_size
unfolding passes
passes-fits h n p e = ground arith

chunks_fit :
    (h : Head) (n : ℕ)
    → passes h ≡ false
    → (passes h ≡ true) ⊎ (n ≤ max_rewritable_body_size)
    → n ≤ max_rewritable_body_size
chunks_fit h n p (inl q) = cc
chunks_fit h n p (inr fits) = fits

read_fixed_body-length :
    (bs rest : Bytes) (e : Ending) (rs : List ℕ) (out : Bytes)
    → length bs ≤ isize_max
    → read_fixed_body (length bs) (conn (bs ++ rest) e rs out) ≡ (done bs, conn rest e rs out)
unfolding read_fixed_body
read_fixed_body-length bs rest e rs out fits =
    rw (not-capacity_overflow (length bs) fits) (read_exact-length e rs out bs rest)

-- An announced body is read whole, and nothing behind it.
read_body-framed :
    (h : Head) (b : Body) (rest : Bytes) (e : Ending) (rs : List ℕ) (out : Bytes)
    → Announces h b
    → passes h ≡ false
    → read_body h.is_chunked h.content_length (conn (framed b rest) e rs out)
      ≡ (done (some (carried b)), conn rest e rs out)
unfolding read_body
read_body-framed h (fixed bs) rest e rs out a p =
    let fits = passes-fits h (length bs) p a.1 in
    rw (a.0, a.1, read_fixed_body-length bs rest e rs out (omega arith))
read_body-framed h (chunked chs z) rest e rs out a p =
    let fits = chunks_fit h (length (payloads chs)) p a.3 in
    rw (
      a.0,
      read_chunked_body-body_wire chs z (suc (length (body_wire chs z rest)))
          max_rewritable_body_size [] rest e rs out (omega (arith, length-body_wire chs z rest))
          (omega arith) (omega arith) a.1 a.2,
    )

send_body_lem :
    (h : Head) (b : Body) (new input : Bytes) (e : Ending) (rs : List ℕ) (out : Bytes)
    → Announces h b
    → send_body h.is_chunked new (conn input e rs out)
      ≡ (done tt, conn input e rs (out ++ sent_as b new))
unfolding send_body
send_body_lem h (fixed bs) new input e rs out a = rw (a.0, write_all_lem)
send_body_lem h (chunked chs z) new input e rs out a = rw (a.0, write_chunked_body_lem)

module _ (origin proxy : Str) where
  rewritten_lem :
      (h : Head) (b : Body)
      → rewritten origin proxy h b
        ≡ updated_headers h (length (carried b)) (length (rewrite_body origin proxy (carried b)))
          ++ sent_as b (rewrite_body origin proxy (carried b))
  rewritten_lem h (fixed bs) = refl
  rewritten_lem h (chunked chs z) = refl

  pub rewrite_response-framed :
      (h : Head) (b : Body) (rest : Bytes) (e : Ending) (rs : List ℕ) (out : Bytes)
      → Announces h b
      → passes h ≡ false
      → rewrite_response origin proxy h (conn (framed b rest) e rs out)
        ≡ (done true, conn rest e rs (out ++ rewritten origin proxy h b))
  unfolding rewrite_response send_rewritten
  rewrite_response-framed h b rest e rs out a p =
      let new = rewrite_body origin proxy (carried b) in
      let top = updated_headers h (length (carried b)) (length new) in
      rw (
        read_body-framed h b rest e rs out a p,
        write_all_lem,
        send_body_lem h b new rest e rs (out ++ top) a,
        append_assoc,
        rewritten_lem h b,
      )
