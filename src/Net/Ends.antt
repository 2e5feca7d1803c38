-- ===== src/Net/Ends.antt =====
-- A postcondition for every program over a connection: it does not run out of fuel, and where it goes on,
-- no more input is left than before. The rules follow the program's `do` blocks.
use dlna_proxy.Common.{ℕ, suc, ◌≤◌, Option, [], List, ◌∷◌, ◌≢◌, arith, length, length-drop}
use dlna_proxy.Text.{Bytes}
use dlna_proxy.Net.{
  Conn, Ending, eof, reset, Outcome, done, failed, panicked, no_fuel, M, bind_outcome, drop_line,
  read_until_lf, read_exact, read, write_all, copy, piece,
}

abbrev pub Ends : {A : Type 0} → ℕ → Outcome A × Conn → Type 0
Ends n (done a, c) = length c.input ≤ n
Ends n (failed e, c) = Unit
Ends n (panicked, c) = Unit
Ends n (no_fuel, c) = ⊥

pub Ends-bind :
    {A B : Type 0} (n : ℕ) (r : Outcome A × Conn) (f : A → M B)
    → Ends n r
    → ((a : A) (c : Conn) → length c.input ≤ n → Ends n (f a c))
    → Ends n (bind_outcome r f)
Ends-bind n (done a, c) f h k = k a c h
Ends-bind n (failed e, c) f h k = tt
Ends-bind n (panicked, c) f h k = tt
Ends-bind n (no_fuel, c) f h k = h

pub Ends-mono : {A : Type 0} (m n : ℕ) (r : Outcome A × Conn) → m ≤ n → Ends m r → Ends n r
Ends-mono m n (done a, c) h e = omega arith
Ends-mono m n (failed x, c) h e = tt
Ends-mono m n (panicked, c) h e = tt
Ends-mono m n (no_fuel, c) h e = e

pub Ends-ne-no_fuel : {A : Type 0} (n : ℕ) (r : Outcome A × Conn) → Ends n r → r.0 ≢ no_fuel
Ends-ne-no_fuel n (done a, c) h = λ e. cc
Ends-ne-no_fuel n (failed x, c) h = λ e. cc
Ends-ne-no_fuel n (panicked, c) h = λ e. cc
Ends-ne-no_fuel n (no_fuel, c) h = absurd h

drop_line-le : (bs : Bytes) → length (drop_line bs) ≤ length bs
drop_line-le [] = omega arith
drop_line-le (b ∷ bs) = ground (arith, drop_line-le bs)

-- A line that is not empty takes at least one byte of the input.
abbrev pub LineEnds : ℕ → Outcome Bytes × Conn → Type 0
LineEnds n (done [], c) = length c.input ≤ n
LineEnds n (done (b ∷ bs), c) = suc (length c.input) ≤ n
LineEnds n (failed e, c) = Unit
LineEnds n (panicked, c) = Unit
LineEnds n (no_fuel, c) = ⊥

line_of :
    (input : Bytes) (e : Ending) (rs : List ℕ) (sent : Bytes) (room : Option ℕ)
    → LineEnds
        (length input)
        (read_until_lf (record { input = input; ending = e; reads = rs; sent = sent; room = room }))
unfolding read_until_lf
line_of [] eof rs sent room = omega arith
line_of [] reset rs sent room = tt
line_of (b ∷ bs) e rs sent room = ground (arith, drop_line-le bs)

pub read_until_lf-LineEnds : (c : Conn) → LineEnds (length c.input) (read_until_lf c)
read_until_lf-LineEnds c = line_of c.input c.ending c.reads c.sent c.room

pub LineEnds-Ends : (n : ℕ) (r : Outcome Bytes × Conn) → LineEnds n r → Ends n r
LineEnds-Ends n (done [], c) h = h
LineEnds-Ends n (done (b ∷ bs), c) h = omega arith
LineEnds-Ends n (failed e, c) h = tt
LineEnds-Ends n (panicked, c) h = tt
LineEnds-Ends n (no_fuel, c) h = h

-- The rule for a line: behind a line that is not empty, less input is left.
pub LineEnds-bind :
    {B : Type 0} (n : ℕ) (r : Outcome Bytes × Conn) (f : Bytes → M B)
    → LineEnds n r
    → ((c : Conn) → length c.input ≤ n → Ends n (f [] c))
    → ((b : ℕ) (bs : Bytes) (c : Conn) → suc (length c.input) ≤ n → Ends n (f (b ∷ bs) c))
    → Ends n (bind_outcome r f)
LineEnds-bind n (done [], c) f h k l = k c h
LineEnds-bind n (done (b ∷ bs), c) f h k l = l b bs c h
LineEnds-bind n (failed e, c) f h k l = tt
LineEnds-bind n (panicked, c) f h k l = tt
LineEnds-bind n (no_fuel, c) f h k l = h

pub read_exact-Ends : (n : ℕ) (c : Conn) → Ends (length c.input) (read_exact n c)
unfolding read_exact
read_exact-Ends n c = ground (arith, length-drop n c.input)

read_of :
    (n : ℕ) (input : Bytes) (e : Ending) (rs : List ℕ) (sent : Bytes) (room : Option ℕ)
    → Ends
        (length input)
        (read n (record { input = input; ending = e; reads = rs; sent = sent; room = room }))
unfolding read
read_of n [] eof rs sent room = omega arith
read_of n [] reset rs sent room = tt
read_of n (b ∷ bs) e rs sent room = omega (arith, length-drop (piece n rs) (b ∷ bs))

pub read-Ends : (n : ℕ) (c : Conn) → Ends (length c.input) (read n c)
read-Ends n c = read_of n c.input c.ending c.reads c.sent c.room

pub write_all-Ends : (bs : Bytes) (c : Conn) → Ends (length c.input) (write_all bs c)
unfolding write_all
write_all-Ends bs c = ground arith

pub copy-Ends : (c : Conn) → Ends (length c.input) (copy c)
unfolding copy write_all
copy-Ends c = ground arith

-- The rule for a step that ends from every state.
pub Ends-step :
    {A B : Type 0} (n : ℕ) (m : M A) (c : Conn) (f : A → M B)
    → length c.input ≤ n
    → ((c : Conn) → Ends (length c.input) (m c))
    → ((a : A) (c : Conn) → length c.input ≤ n → Ends n (f a c))
    → Ends n (bind_outcome (m c) f)
Ends-step n m c f h e k = Ends-bind n (m c) f (Ends-mono (length c.input) n (m c) h (e c)) k
