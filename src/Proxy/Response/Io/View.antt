-- ===== src/Proxy/Response/Io/View.antt =====
-- What can be seen of a run, but for the sizes of the reads that are still to come.
use dlna_proxy.Common.{ℕ, Option, List, ◌≡◌, refl, ◌∙◌}
use dlna_proxy.Text.{Bytes}
use dlna_proxy.Net.{Conn, Ending, Outcome, done, failed, panicked, no_fuel, M, bind_outcome}
use dlna_proxy.Proxy.Response.Io.Cut.{conn_with}

-- What can be seen of a run: its outcome and what was sent; and where it can go on, the state but for the sizes
-- of the reads to come.
pub data View (A : Type 0) : Type 0 where
  goes_on : A → Bytes → Ending → Bytes → Option ℕ → View A
  stops : Outcome A → Bytes → View A

abbrev pub view : {A : Type 0} → Outcome A × Conn → View A
view (done a, c) = goes_on a c.input c.ending c.sent c.room
view (failed e, c) = stops (failed e) c.sent
view (panicked, c) = stops panicked c.sent
view (no_fuel, c) = stops no_fuel c.sent

abbrev pub IsBlind : {A : Type 0} → M A → Type 0
IsBlind m =
    (i : Bytes) (e : Ending) (rs rs' : List ℕ) (o : Bytes) (k : Option ℕ)
    → view (m (conn_with i e rs o k)) ≡ view (m (conn_with i e rs' o k))

pub bind-IsBlind :
    {A B : Type 0} (r r' : Outcome A × Conn) (f : A → M B)
    → view r ≡ view r'
    → ((a : A) → IsBlind (f a))
    → view (bind_outcome r f) ≡ view (bind_outcome r' f)
bind-IsBlind (done a, c) (done a', c') f h b =
    b a c.input c.ending c.reads c'.reads c.sent c.room ∙ cc
bind-IsBlind (done a, c) (failed e', c') f h b = cc
bind-IsBlind (done a, c) (panicked, c') f h b = cc
bind-IsBlind (done a, c) (no_fuel, c') f h b = cc
bind-IsBlind (failed e, c) (done a', c') f h b = cc
bind-IsBlind (failed e, c) (failed e', c') f h b = cc
bind-IsBlind (failed e, c) (panicked, c') f h b = cc
bind-IsBlind (failed e, c) (no_fuel, c') f h b = cc
bind-IsBlind (panicked, c) (done a', c') f h b = cc
bind-IsBlind (panicked, c) (failed e', c') f h b = cc
bind-IsBlind (panicked, c) (panicked, c') f h b = cc
bind-IsBlind (panicked, c) (no_fuel, c') f h b = cc
bind-IsBlind (no_fuel, c) (done a', c') f h b = cc
bind-IsBlind (no_fuel, c) (failed e', c') f h b = cc
bind-IsBlind (no_fuel, c) (panicked, c') f h b = cc
bind-IsBlind (no_fuel, c) (no_fuel, c') f h b = cc

unfoldable pub outcome_of : {A : Type 0} → View A → Outcome A
outcome_of (goes_on a i e o k) = done a
outcome_of (stops x o) = x

unfoldable pub sent_of : {A : Type 0} → View A → Bytes
sent_of (goes_on a i e o k) = o
sent_of (stops x o) = o

pub view_parts :
    {A : Type 0} (r : Outcome A × Conn)
    → (outcome_of (view r) ≡ r.0) × (sent_of (view r) ≡ r.1.sent)
unfolding outcome_of sent_of
view_parts (done a, c) = (refl, refl)
view_parts (failed e, c) = (refl, refl)
view_parts (panicked, c) = (refl, refl)
view_parts (no_fuel, c) = (refl, refl)
