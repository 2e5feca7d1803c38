-- ===== src/Proxy/Chunk/Ends.antt =====
-- The loops over a body end, whatever the origin sends and the network does.
use dlna_proxy.Common.{
  ℕ, zero, suc, ◌-◌, ◌≤◌, ◌<◌, Bool, true, false, Option, none, some, [], ◌∷◌, ◌++◌, arith, length,
  min,
}
use dlna_proxy.Text.{Bytes, codes}
use dlna_proxy.Text.Number.{to_hex}
use dlna_proxy.Net.{Conn, read_until_lf, read_exact, read, write_all}
use dlna_proxy.Net.Ends.{
  Ends, Ends-bind, Ends-step, LineEnds-bind, Ends-step, LineEnds-Ends, Ends-mono,
  read_until_lf-LineEnds, read_exact-Ends, read-Ends, write_all-Ends,
}
use dlna_proxy.Proxy.Chunk.{
  forward, pass_through_chunked, read_chunked_body, write_chunked_body, parse_chunk_size,
  or_invalid, limit_check, allocate, exceeds, allocate_if,
}

pub forward-Ends : (f n : ℕ) (c : Conn) → n ≤ f → Ends (length c.input) (forward f n c)
unfolding forward
forward-Ends zero zero c h = omega arith
forward-Ends zero (suc n) c h = absurd (omega arith)
forward-Ends (suc f) zero c h = omega arith
forward-Ends (suc f) (suc k) c h =
    Ends-bind (length c.input) (read (min (suc k) 8192) c) _ (read-Ends (min (suc k) 8192) c)
      (elim [
        | [] ↦ λ c1 h1. h1
        | b ∷ more ↦ λ c1 h1.
            Ends-step (length c.input) (write_all (b ∷ more)) c1 _ h1 (write_all-Ends (b ∷ more))
              λ _ c2 h2.
                Ends-mono (length c2.input) (length c.input) _ h2
                  (forward-Ends f (suc k - suc (length more)) c2 (omega arith))
      ])

pub or_invalid-Ends : (o : Option ℕ) (c : Conn) → Ends (length c.input) (or_invalid o c)
or_invalid-Ends none c = tt
or_invalid-Ends (some n) c = omega arith

read_line-Ends : (c : Conn) → Ends (length c.input) (read_until_lf c)
read_line-Ends c = LineEnds-Ends (length c.input) (read_until_lf c) (read_until_lf-LineEnds c)

limit_check-Ends : (b : Bool) (c : Conn) → Ends (length c.input) (limit_check b c)
limit_check-Ends true c = tt
limit_check-Ends false c = omega arith

pub allocate_if-Ends : (b : Bool) (c : Conn) → Ends (length c.input) (allocate_if b c)
allocate_if-Ends true c = tt
allocate_if-Ends false c = omega arith

-- With more fuel than input the loop ends.
pub pass_through_chunked-Ends :
    (f : ℕ) (c : Conn) → length c.input < f → Ends (length c.input) (pass_through_chunked f c)
unfolding pass_through_chunked
pass_through_chunked-Ends zero c h = absurd (omega arith)
pass_through_chunked-Ends (suc f) c h =
    LineEnds-bind (length c.input) (read_until_lf c) _ (read_until_lf-LineEnds c) (λ c1 h1. h1)
      λ b bs c1 h1.
        let n = length c1.input in
        Ends-mono n (length c.input) _ (omega arith) (
          Ends-step n (write_all (b ∷ bs)) c1 _ (omega arith) (write_all-Ends (b ∷ bs)) λ _ c2 h2.
            Ends-step n (or_invalid (parse_chunk_size (b ∷ bs))) c2 _ h2 (or_invalid-Ends _) (elim [
              | zero ↦ λ c3 h3.
                  Ends-step n read_until_lf c3 _ h3 read_line-Ends
                    λ trailer c4 h4. Ends-mono (length c4.input) n _ h4 (write_all-Ends trailer c4)
              | suc k ↦ λ c3 h3.
                  Ends-step n (forward (suc k) (suc k)) c3 _ h3
                    (λ c'. forward-Ends (suc k) (suc k) c' (omega arith))
                    λ _ c4 h4. Ends-step n (read_exact 2) c4 _ h4 (read_exact-Ends 2) λ crlf c5 h5.
                      Ends-step n (write_all crlf) c5 _ h5 (write_all-Ends crlf) λ _ c6 h6.
                        Ends-mono (length c6.input) n _ h6
                          (pass_through_chunked-Ends f c6 (omega arith))
            ]))

pub read_chunked_body-Ends :
    (f max_size : ℕ) (body : Bytes) (c : Conn)
    → length c.input < f
    → Ends (length c.input) (read_chunked_body f max_size body c)
unfolding read_chunked_body
read_chunked_body-Ends zero max_size body c h = absurd (omega arith)
read_chunked_body-Ends (suc f) max_size body c h =
    LineEnds-bind (length c.input) (read_until_lf c) _ (read_until_lf-LineEnds c) (λ c1 h1. h1)
      λ b bs c1 h1.
        let n = length c1.input in
        Ends-mono n (length c.input) _ (omega arith) (
          Ends-step n (or_invalid (parse_chunk_size (b ∷ bs))) c1 _ (omega arith)
            (or_invalid-Ends _)
            (elim [
              | zero ↦ λ c3 h3. Ends-step n read_until_lf c3 _ h3 read_line-Ends λ trailer c4 h4. h4
              | suc k ↦ λ c3 h3.
                  Ends-step n (limit_check (exceeds max_size (length body) (suc k))) c3 _ h3
                    (limit_check-Ends _)
                    λ _ c4 h4.
                      Ends-step n (allocate (suc k)) c4 _ h4 (allocate_if-Ends _) λ _ c5 h5.
                        Ends-step n (read_exact (suc k)) c5 _ h5 (read_exact-Ends (suc k))
                          λ chunk c6 h6.
                            Ends-step n (read_exact 2) c6 _ h6 (read_exact-Ends 2) λ crlf c7 h7.
                              Ends-mono (length c7.input) n _ h7
                                (read_chunked_body-Ends f max_size (body ++ chunk) c7 (omega arith))
            ]))

pub write_chunked_body-Ends :
    (body : Bytes) (c : Conn) → Ends (length c.input) (write_chunked_body body c)
unfolding write_chunked_body
write_chunked_body-Ends body c =
    let n = length c.input in
    Ends-step n (write_all (to_hex (length body) ++ codes "\r\n")) c _ (omega arith)
      (write_all-Ends _)
      λ _ c1 h1. Ends-step n (write_all body) c1 _ h1 (write_all-Ends body) λ _ c2 h2.
        Ends-step n (write_all (codes "\r\n")) c2 _ h2 (write_all-Ends _)
          λ _ c3 h3. Ends-mono (length c3.input) n _ h3 (write_all-Ends _ c3)
