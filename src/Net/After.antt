-- ===== src/Net/After.antt =====
-- A postcondition for programs over a connection: where one goes on, a relation between its result and the input that
-- is left; where it panics, a reason for it. The rules follow the program's `do` blocks.
use dlna_proxy.Common.{
  ℕ, ◌≤◌, ◌<◌, Option, none, some, List, [], ◌∷◌, ◌++◌, inl, inr, ◌≡◌, refl, sym, ap, ◌∙◌, arith,
  leb, length, take-append-drop, length-take, Bool-cases, ◌||◌,
}
use dlna_proxy.Text.{Bytes}
use dlna_proxy.Net.{
  Conn, Ending, eof, reset, Outcome, done, failed, panicked, no_fuel, M, bind_outcome,
  read_until_lf, read_exact, read, write_all, copy, copy_end, has_lf, is_eof, take_line, drop_line,
}
use dlna_proxy.Net.Laws.{read_piece}

-- `R a rest`: the program has returned `a` and left `rest`; `P`: the reason of a panic.
abbrev pub After : {A : Type 0} → (A → Bytes → Type 0) → Type 0 → Outcome A × Conn → Type 0
After R P (done a, c) = R a c.input
After R P (failed e, c) = Unit
After R P (panicked, c) = P
After R P (no_fuel, c) = Unit

pub After-bind :
    {A B : Type 0} (R : A → Bytes → Type 0) (S : B → Bytes → Type 0) (P : Type 0)
    (r : Outcome A × Conn) (f : A → M B)
    → After R P r
    → ((a : A) (c : Conn) → R a c.input → After S P (f a c))
    → After S P (bind_outcome r f)
After-bind R S P (done a, c) f h k = k a c h
After-bind R S P (failed e, c) f h k = tt
After-bind R S P (panicked, c) f h k = h
After-bind R S P (no_fuel, c) f h k = tt

pub After-map :
    {A : Type 0} (R S : A → Bytes → Type 0) (P : Type 0) (r : Outcome A × Conn)
    → After R P r
    → ((a : A) (rest : Bytes) → R a rest → S a rest)
    → After S P r
After-map R S P (done a, c) h k = k a c.input h
After-map R S P (failed e, c) h k = tt
After-map R S P (panicked, c) h k = h
After-map R S P (no_fuel, c) h k = tt

pub After-panicked :
    {A : Type 0} (R : A → Bytes → Type 0) (P : Type 0) (r : Outcome A × Conn)
    → After R P r
    → r.0 ≡ panicked
    → P
After-panicked R P (done a, c) h e = absurd (cc e)
After-panicked R P (failed x, c) h e = absurd (cc e)
After-panicked R P (panicked, c) h e = h
After-panicked R P (no_fuel, c) h e = absurd (cc e)

-- the first line was taken
abbrev pub TookLine : Bytes → Bytes → Bytes → Type 0
TookLine input line rest = (line ≡ take_line input) × (rest ≡ drop_line input)

-- the first `n` bytes were taken
abbrev pub Took : ℕ → Bytes → Bytes → Bytes → Type 0
Took n input bs rest = (input ≡ bs ++ rest) × (length bs ≡ n)

-- nothing was taken
abbrev pub Kept : {A : Type 0} → Bytes → A → Bytes → Type 0
Kept input a rest = rest ≡ input

pub read_until_lf-After : (P : Type 0) (c : Conn) → After (TookLine c.input) P (read_until_lf c)
unfolding read_until_lf
read_until_lf-After P c = elim (Bool-cases (has_lf c.input || is_eof c.ending)) [
  | inl e ↦ rw e (refl, refl)
  | inr e ↦ rw e tt
]

pub read_exact-After : (P : Type 0) (n : ℕ) (c : Conn) → After (Took n c.input) P (read_exact n c)
unfolding read_exact
read_exact-After P n c = elim (Bool-cases (leb n (length c.input))) [
  | inl e ↦ rw e (sym (take-append-drop n c.input), length-take n c.input ∙ ground arith)
  | inr e ↦ rw e tt
]

send_After :
    (P : Type 0) (bs i : Bytes) (e : Ending) (rs : List ℕ) (o : Bytes) (k : Option ℕ)
    → After
        (Kept i)
        P
        (write_all bs (record { input = i; ending = e; reads = rs; sent = o; room = k }))
unfolding write_all
send_After P bs i e rs o none = refl
send_After P bs i e rs o (some k) = elim (Bool-cases (leb (length bs) k)) [
  | inl fits ↦ rw fits refl
  | inr over ↦ rw over tt
]

pub write_all-After : (P : Type 0) (bs : Bytes) (c : Conn) → After (Kept c.input) P (write_all bs c)
write_all-After P bs c = send_After P bs c.input c.ending c.reads c.sent c.room

-- a result of a read of at most `n` bytes: some bytes of the input, or none at its end
abbrev pub ReadSome : ℕ → Bytes → Bytes → Bytes → Type 0
ReadSome n input bs rest = (input ≡ bs ++ rest) × (length bs ≤ n) × (bs ≡ [] → rest ≡ [])

read_piece-After :
    (P : Type 0) (n b : ℕ) (bs : Bytes) (e : Ending) (rs : List ℕ) (o : Bytes) (k : Option ℕ)
    → 0 < n
    → After
        (ReadSome n (b ∷ bs))
        P
        (read n (record { input = b ∷ bs; ending = e; reads = rs; sent = o; room = k }))
read_piece-After P n b bs e rs o k pos =
    let (j, later, below, got) = read_piece n b bs e rs o k pos in
    rw got (
      ap (◌∷◌ b) (sym (take-append-drop j bs)),
      omega (arith, length-take j bs),
      λ h. absurd (cc h),
    )

read_of-After :
    (P : Type 0) (n : ℕ) (i : Bytes) (e : Ending) (rs : List ℕ) (o : Bytes) (k : Option ℕ)
    → 0 < n
    → After
        (ReadSome n i)
        P
        (read n (record { input = i; ending = e; reads = rs; sent = o; room = k }))
unfolding read
read_of-After P n [] eof rs o k pos = (refl, omega arith, λ h. refl)
read_of-After P n [] reset rs o k pos = tt
read_of-After P n (b ∷ bs) e rs o k pos = read_piece-After P n b bs e rs o k pos

pub read-After : (P : Type 0) (n : ℕ) (c : Conn) → 0 < n → After (ReadSome n c.input) P (read n c)
read-After P n c pos = read_of-After P n c.input c.ending c.reads c.sent c.room pos

-- nothing is asked of what is left
abbrev pub Whatever : {A : Type 0} → A → Bytes → Type 0
Whatever a rest = Unit

copy_end-After : (P : Type 0) (e : Ending) (c : Conn) → After Whatever P (copy_end e c)
unfolding copy_end
copy_end-After P eof c = tt
copy_end-After P reset c = tt

pub copy-After : (P : Type 0) (c : Conn) → After Whatever P (copy c)
unfolding copy
copy-After P c =
    After-bind (Kept []) Whatever P (write_all c.input (record c { input = [] })) _
      (write_all-After P c.input (record c { input = [] })) λ _ c' _. copy_end-After P c.ending c'
