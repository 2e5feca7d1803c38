-- ===== src/Proxy/Response/Io/Cut.antt =====
-- Two runs of a call of tcp_proxy.rs side by side: with a client that takes every byte, and with one that stops.
use dlna_proxy.Common.{
  ℕ, zero, suc, ◌-◌, ◌≤◌, ◌<◌, Option, none, some, List, [], ◌∷◌, ◌++◌, append_assoc, append-nil,
  ◌⊎◌, inl, inr, ◌≡◌, refl, sym, ap, ◌∙◌, arith, length, length-append, take, take-append,
}
use dlna_proxy.Text.{Bytes}
use dlna_proxy.Net.{
  ErrorKind, Conn, Ending, Outcome, done, failed, panicked, no_fuel, broken_pipe, M, bind_outcome,
}

-- The result of a run whose client takes every byte, and of one whose client takes `k` more bytes, when `o` has
-- been sent: the same, or a broken pipe behind the first `k` of the bytes that were to be sent.
pub record Cut {A : Type 0} (k : ℕ) (o : Bytes) (r r' : Outcome A × Conn) : Type 0 where
  pub more : Bytes
  pub grown : r.1.sent ≡ o ++ more
  pub free : r.1.room ≡ none
  pub cut :
      ((length more ≤ k) × (r' ≡ (r.0, record r.1 { room = some (k - length more) })))
      ⊎ ((k < length more) × (r'.0 ≡ failed broken_pipe) × (r'.1.sent ≡ o ++ take k more))

abbrev pub conn_with : Bytes → Ending → List ℕ → Bytes → Option ℕ → Conn
conn_with i e rs o k = record { input = i; ending = e; reads = rs; sent = o; room = k }

abbrev pub IsClipped : {A : Type 0} → M A → Type 0
IsClipped m =
    (i : Bytes) (e : Ending) (rs : List ℕ) (o : Bytes) (k : ℕ)
    → Cut k o (m (conn_with i e rs o none)) (m (conn_with i e rs o (some k)))

-- A call that sends nothing, and does the same whatever the client takes.
pub silent :
    {A : Type 0} (x : Outcome A) (i : Bytes) (e : Ending) (rs : List ℕ) (o : Bytes) (k : ℕ)
    → Cut k o (x, conn_with i e rs o none) (x, conn_with i e rs o (some k))
silent x i e rs o k = record {
  more = [];
  grown = sym (append-nil o);
  free = refl;
  cut = let same : k - 0 ≡ k = omega arith in inl (omega arith, rw same);
}

pub take_within :
    {A : Type 0} (k : ℕ) (xs ys : List A) → k ≤ length xs → take k (xs ++ ys) ≡ take k xs
take_within zero xs ys h = refl
take_within (suc k) [] ys h = absurd (omega arith)
take_within (suc k) (x ∷ xs) ys h = ap (◌∷◌ x) (take_within k xs ys (omega arith))

-- What is sent later is behind what was sent before.
Cut_later :
    {A : Type 0} {r r' : Outcome A × Conn} (k : ℕ) (o before : Bytes)
    → length before ≤ k
    → Cut (k - length before) (o ++ before) r r'
    → Cut k o r r'
Cut_later k o before fits c =
    let sum = length-append before c.more in
    record {
      more = before ++ c.more;
      grown = c.grown ∙ append_assoc o before c.more;
      free = c.free;
      cut = elim c.cut [
        | inl all ↦
            let left : k - length before - length c.more ≡ k - length (before ++ c.more) =
              omega (arith, sum) in
            inl (omega (arith, sum, all.0), rw (← left) all.1)
        | inr part ↦ inr (
          omega (arith, sum, part.0),
          part.1,
          part.2
              ∙ append_assoc o before (take (k - length before) c.more)
              ∙ ap (◌++◌ o) (sym (take-append k before c.more fits)),
        )
      ];
    }

bind_outcome_failed :
    {A B : Type 0} (r : Outcome A × Conn) (e : ErrorKind) (f : A → M B)
    → r.0 ≡ failed e
    → bind_outcome r f ≡ (failed e, r.1)
bind_outcome_failed (done a, c) e f h = cc
bind_outcome_failed (failed x, c) e f h = cc
bind_outcome_failed (panicked, c) e f h = cc
bind_outcome_failed (no_fuel, c) e f h = cc

module _ {A B : Type 0} (k : ℕ) (o : Bytes) (f : A → M B)
    (f-IsClipped : (a : A) → IsClipped (f a)) where
  -- The first part is within the room, and the second goes on.
  go_on :
      (a : A) (i : Bytes) (e : Ending) (rs : List ℕ) (s before : Bytes) (room : Option ℕ)
      (r' : Outcome A × Conn)
      → s ≡ o ++ before
      → room ≡ none
      → length before ≤ k
      → r' ≡ (done a, conn_with i e rs s (some (k - length before)))
      → Cut k o (f a (conn_with i e rs s room)) (bind_outcome r' f)
  go_on a i e rs s before room r' grown free fits same =
      rw (same, free, grown)
        (Cut_later k o before fits (f-IsClipped a i e rs (o ++ before) (k - length before)))

  -- The first part was cut; without a bound the second would have sent more.
  cut_before :
      (a : A) (i : Bytes) (e : Ending) (rs : List ℕ) (s before : Bytes) (room : Option ℕ)
      (r' : Outcome A × Conn)
      → s ≡ o ++ before
      → room ≡ none
      → k < length before
      → r'.0 ≡ failed broken_pipe
      → r'.1.sent ≡ o ++ take k before
      → Cut k o (f a (conn_with i e rs s room)) (bind_outcome r' f)
  cut_before a i e rs s before room r' grown free over broke part =
      let later = f-IsClipped a i e rs (o ++ before) 0 in
      rw (bind_outcome_failed r' broken_pipe f broke, free, grown)
        (record {
          more = before ++ later.more;
          grown = later.grown ∙ append_assoc o before later.more;
          free = later.free;
          cut = inr (
            omega (arith, length-append before later.more),
            refl,
            part ∙ ap (◌++◌ o) (sym (take_within k before later.more (omega arith))),
          );
        })

  stopped :
      (x : Outcome B) (i : Bytes) (e : Ending) (rs : List ℕ) (s before : Bytes) (room : Option ℕ)
      (r' : Outcome A × Conn)
      → s ≡ o ++ before
      → room ≡ none
      → ((length before ≤ k)
          × (bind_outcome r' f ≡ (x, conn_with i e rs s (some (k - length before)))))
        ⊎ ((k < length before) × (r'.0 ≡ failed broken_pipe) × (r'.1.sent ≡ o ++ take k before))
      → Cut k o (x, conn_with i e rs s room) (bind_outcome r' f)
  stopped x i e rs s before room r' grown free (inl all) = record {
    more = before;
    grown = grown;
    free = free;
    cut = inl all;
  }
  stopped x i e rs s before room r' grown free (inr part) =
      rw (bind_outcome_failed r' broken_pipe f part.1)
        (record { more = before; grown = grown; free = free; cut = inr (part.0, refl, part.2) })

  pub Cut-bind :
      (r r' : Outcome A × Conn) → Cut k o r r' → Cut k o (bind_outcome r f) (bind_outcome r' f)
  Cut-bind (done a, c) r' h = elim h.cut [
    | inl all ↦ go_on a c.input c.ending c.reads c.sent h.more c.room r' h.grown h.free all.0 all.1
    | inr part ↦
        cut_before a c.input c.ending c.reads c.sent h.more c.room r' h.grown h.free part.0 part.1
          part.2
  ]
  Cut-bind (failed x, c) r' h =
      stopped (failed x) c.input c.ending c.reads c.sent h.more c.room r' h.grown h.free
        (elim h.cut [ inl all ↦ inl (all.0, rw all.1) | inr part ↦ inr part ])
  Cut-bind (panicked, c) r' h =
      stopped panicked c.input c.ending c.reads c.sent h.more c.room r' h.grown h.free
        (elim h.cut [ inl all ↦ inl (all.0, rw all.1) | inr part ↦ inr part ])
  Cut-bind (no_fuel, c) r' h =
      stopped no_fuel c.input c.ending c.reads c.sent h.more c.room r' h.grown h.free
        (elim h.cut [ inl all ↦ inl (all.0, rw all.1) | inr part ↦ inr part ])
