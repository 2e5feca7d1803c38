-- ===== src/Net.antt =====
-- A proxied connection as the response task of tcp_proxy.rs sees it: the bytes that the origin sends,
-- what was written to the client, and the tokio calls on both (std and tokio I/O, not under src/).
pub mod Addr
pub mod Laws
pub mod Ends
pub mod After
use dlna_proxy.Common.{
  ℕ, zero, suc, ◌+◌, ◌-◌, ◌≤◌, min, Bool, true, false, Option, none, some, List, [], ◌∷◌, ◌++◌, leb,
  ◌==◌, ◌||◌, if◌then◌else◌, length, take, drop,
}
use dlna_proxy.Text.{Bytes, lf}

-- `io::ErrorKind`, as far as it arises
pub data ErrorKind : Type 0 where
  invalid_data unexpected_eof connection_reset broken_pipe : ErrorKind

-- A task returns, returns an error, or panics. `no_fuel` marks a loop whose fuel was too small.
pub data Outcome (A : Type 0) : Type 0 where
  done : A → Outcome A
  failed : ErrorKind → Outcome A
  panicked : Outcome A
  no_fuel : Outcome A

-- how the origin's stream ends behind its last byte
pub data Ending : Type 0 where
  eof reset : Ending

-- `reads` is chosen by the network: an entry `r` lets the next `read` return up to r + 1 bytes. `room`
-- is the number of bytes that the client still takes before its side breaks, `none` for no bound.
pub record Conn : Type 0 where
  pub input : Bytes
  pub ending : Ending
  pub reads : List ℕ
  pub sent : Bytes
  pub room : Option ℕ

abbrev pub M : Type 0 → Type 0
M A = Conn → Outcome A × Conn

abbrev pub pure : {A : Type 0} → A → M A
pure a c = (done a, c)

abbrev pub fail : {A : Type 0} → ErrorKind → M A
fail e c = (failed e, c)

abbrev pub panic : {A : Type 0} → M A
panic c = (panicked, c)

-- the fuel of a loop is spent
abbrev pub spent : {A : Type 0} → M A
spent c = (no_fuel, c)

abbrev pub bind_outcome : {A B : Type 0} → Outcome A × Conn → (A → M B) → Outcome B × Conn
bind_outcome (done a, c) f = f a c
bind_outcome (failed e, c) f = (failed e, c)
bind_outcome (panicked, c) f = (panicked, c)
bind_outcome (no_fuel, c) f = (no_fuel, c)

infixl 5 ◌>>=◌ ◌>>◌
abbrev pub ◌>>=◌ : {A B : Type 0} → M A → (A → M B) → M B
◌>>=◌ m f c = bind_outcome (m c) f

abbrev pub ◌>>◌ : {B : Type 0} → M (Unit {0}) → M B → M B
◌>>◌ m k c = bind_outcome (m c) (λ _. k)

-- what a read that needs more bytes than there are returns
abbrev pub end_error : Ending → ErrorKind
end_error eof = unexpected_eof
end_error reset = connection_reset

-- up to and with the first LF
abbrev pub take_line : Bytes → Bytes
take_line [] = []
take_line (b ∷ bs) = b ∷ (if b == lf then [] else take_line bs)

abbrev pub drop_line : Bytes → Bytes
drop_line [] = []
drop_line (b ∷ bs) = if b == lf then bs else drop_line bs

abbrev pub has_lf : Bytes → Bool
has_lf [] = false
has_lf (b ∷ bs) = b == lf || has_lf bs

abbrev pub is_eof : Ending → Bool
is_eof eof = true
is_eof reset = false

-- `read_until(b'\n', ..)`: a last line with no LF is returned at the end of the stream
unfoldable pub read_until_lf : M Bytes
read_until_lf c =
    if has_lf c.input || is_eof c.ending
    then (done (take_line c.input), record c { input = drop_line c.input })
    else (failed connection_reset, record c { input = [] })

-- `read_exact` into a buffer of `n` bytes
unfoldable pub read_exact : ℕ → M Bytes
read_exact n c =
    if leb n (length c.input)
    then (done (take n c.input), record c { input = drop n c.input })
    else (failed (end_error c.ending), record c { input = [] })

piece : ℕ → List ℕ → ℕ
piece n [] = n
piece n (r ∷ _) = min n (suc r)

rest_of : List ℕ → List ℕ
rest_of [] = []
rest_of (_ ∷ rs) = rs

read_end : Ending → M Bytes
read_end eof c = (done [], c)
read_end reset c = (failed connection_reset, c)

read_from : Bytes → ℕ → M Bytes
read_from [] n c = read_end c.ending c
read_from (b ∷ bs) n c = (
  done (take (piece n c.reads) (b ∷ bs)),
  record c { input = drop (piece n c.reads) (b ∷ bs); reads = rest_of c.reads },
)

-- `read(&mut buf[..n])`: some bytes, at least one unless the stream is at its end
unfoldable pub read : ℕ → M Bytes
unfolding piece rest_of read_end read_from
read n c = read_from c.input n c

-- `write_all`: all bytes, or those for which there is room and an error
send : Option ℕ → Bytes → M (Unit {0})
send none bs c = (done tt, record c { sent = c.sent ++ bs })
send (some k) bs c =
    if leb (length bs) k
    then (done tt, record c { sent = c.sent ++ bs; room = some (k - length bs) })
    else (failed broken_pipe, record c { sent = c.sent ++ take k bs; room = some 0 })

unfoldable pub write_all : Bytes → M (Unit {0})
unfolding send
write_all bs c = send c.room bs c

-- a socket has no buffer of its own to flush
abbrev pub flush : M (Unit {0})
flush = pure tt

unfoldable pub copy_end : Ending → M (Unit {0})
copy_end eof = pure tt
copy_end reset = fail connection_reset

-- `tokio::io::copy`: everything up to the end of the stream
unfoldable pub copy : M (Unit {0})
unfolding copy_end
copy c = (do write_all c.input; copy_end c.ending) (record c { input = [] })
