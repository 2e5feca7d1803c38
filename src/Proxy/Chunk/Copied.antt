-- ===== src/Proxy/Chunk/Copied.antt =====
-- The copying loop of tcp_proxy.rs: what it leaves of the stream; it never panics.
use dlna_proxy.Common.{
  ◌+◌, ℕ, zero, suc, ◌-◌, min, [], ◌∷◌, ◌++◌, append_assoc, ◌⊎◌, inl, inr, ◌≡◌, refl, sym, ap, ◌∙◌,
  arith, length, length-append, Bool-cases, ◌==◌,
}
use dlna_proxy.Text.{Bytes}
use dlna_proxy.Net.{Conn, read, write_all}
use dlna_proxy.Net.After.{After, After-bind, After-map, Kept, ReadSome, write_all-After, read-After}
use dlna_proxy.Proxy.Chunk.{forward}

abbrev pub Copied : {A : Type 0} → ℕ → Bytes → A → Bytes → Type 0
Copied n input a rest = (bs : Bytes) × (input ≡ bs ++ rest) × ((length bs ≡ n) ⊎ (rest ≡ []))

more-Copied :
    (m n : ℕ) (input got middle : Bytes) (a : Unit {0}) (rest : Bytes)
    → input ≡ got ++ middle
    → m ≡ length got + n
    → Copied n middle a rest
    → Copied m input a rest
more-Copied m n input got middle a rest e l (bs, f, g) = (
  got ++ bs,
  e ∙ ap (λ x. got ++ x) f ∙ sym (append_assoc got bs rest),
  elim g [ inl h ↦ inl (omega (arith, length-append got bs)) | inr h ↦ inr h ],
)

pub forward-After : (P : Type 0) (f n : ℕ) (c : Conn) → After (Copied n c.input) P (forward f n c)
unfolding forward
forward-After P zero n c = elim (Bool-cases (n == 0)) [
  | inl e ↦ rw (e, forward) ([], refl, inl (ground arith))
  | inr e ↦ rw (e, forward) tt
]
forward-After P (suc f) zero c = ([], refl, inl refl)
forward-After P (suc f) (suc k) c =
    After-bind (ReadSome (min (suc k) 8192) c.input) (Copied (suc k) c.input) P
      (read (min (suc k) 8192) c) _ (read-After P (min (suc k) 8192) c (omega arith))
      (elim [
        | [] ↦ λ c1 (e, _, at_end). ([], e, inr (at_end refl))
        | b ∷ more ↦ λ c1 (e, l, _).
            After-bind (Kept c1.input) (Copied (suc k) c.input) P (write_all (b ∷ more) c1) _
              (write_all-After P (b ∷ more) c1)
              λ _ c2 same.
                let n = suc k - suc (length more) in
                After-map (Copied n c2.input) (Copied (suc k) c.input) P (forward f n c2)
                  (forward-After P f n c2)
                  λ a rest h.
                    more-Copied (suc k) n c.input (b ∷ more) c2.input a rest
                      (e ∙ ap (λ x. b ∷ more ++ x) (sym same)) (omega arith) h
      ])
