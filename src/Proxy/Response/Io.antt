-- ===== src/Proxy/Response/Io.antt =====
-- tcp_proxy.rs: the programs that the response task is made of, as one inductive predicate. What holds of every
-- call on a connection, and is kept by sequencing, holds of the task.
pub mod Programs
pub mod Reads
pub mod Panics
pub mod View
pub mod Forward
pub mod Cut
pub mod Room
use dlna_proxy.Common.{ℕ, zero, suc, ◌≤◌, length, Bool, true, false, Option, none, some, [], ◌∷◌}
use dlna_proxy.Text.{Bytes}
use dlna_proxy.Net.{
  ErrorKind, M, pure, fail, panic, spent, bind_outcome, read_until_lf, read_exact, write_all, copy,
}
use dlna_proxy.Proxy.Chunk.{forward}

-- The programs. Two of the calls bring their own condition: a copying loop has the fuel that it needs, and a loop on
-- the connection has the fuel that the bytes still to be read give it.
pub data Io : (A : Type 0) → M A → Type 1 where
  returns : {A : Type 0} (a : A) → Io A (pure a)
  fails : {A : Type 0} (e : ErrorKind) → Io A (fail e)
  panics : {A : Type 0} → Io A panic
  exhausts : {A : Type 0} → Io A spent
  reads_line : Io Bytes read_until_lf
  reads_exact : (n : ℕ) → Io Bytes (read_exact n)
  writes : (bs : Bytes) → Io (Unit {0}) (write_all bs)
  copies : Io (Unit {0}) copy
  forwards : (f n : ℕ) → n ≤ f → Io (Unit {0}) (forward f n)
  binds :
      {A B : Type 0} {m : M A} {f : A → M B}
      → Io A m
      → ((a : A) → Io B (f a))
      → Io B (λ c. bind_outcome (m c) f)
  sized :
      {A : Type 0} {m : ℕ → M A} → ((n : ℕ) → Io A (m n)) → Io A (λ c. m (suc (length c.input)) c)

-- Sequencing, where what comes next depends on a case.
pub binds_Bytes :
    {B : Type 0} {m : M Bytes} (f : Bytes → M B)
    → Io Bytes m
    → Io B (f [])
    → ((b : ℕ) (bs : Bytes) → Io B (f (b ∷ bs)))
    → Io B (λ c. bind_outcome (m c) f)
binds_Bytes f p x y = binds p (elim [ [] ↦ x | b ∷ bs ↦ y b bs ])

pub binds_ℕ :
    {B : Type 0} {m : M ℕ} (f : ℕ → M B)
    → Io ℕ m
    → Io B (f 0)
    → ((k : ℕ) → Io B (f (suc k)))
    → Io B (λ c. bind_outcome (m c) f)
binds_ℕ f p x y = binds p (elim [ zero ↦ x | suc k ↦ y k ])

pub binds_Bool :
    {B : Type 0} {m : M Bool} (f : Bool → M B)
    → Io Bool m
    → Io B (f true)
    → Io B (f false)
    → Io B (λ c. bind_outcome (m c) f)
binds_Bool f p x y = binds p (elim [ true ↦ x | false ↦ y ])

pub binds_Option :
    {A B : Type 0} {m : M (Option A)} (f : Option A → M B)
    → Io (Option A) m
    → Io B (f none)
    → ((a : A) → Io B (f (some a)))
    → Io B (λ c. bind_outcome (m c) f)
binds_Option f p x y = binds p (elim [ none ↦ x | some a ↦ y a ])
