-- ===== src/Text/Ascii.antt =====
-- ASCII text is its own encoding.
use dlna_proxy.Common.{ℕ, ◌<◌, some, List, [], ◌∷◌, ◌≡◌, refl, arith, All}
use dlna_proxy.Text.Utf8.{as_bytes, from_utf8, from_utf8_lossy}

abbrev pub IsAscii : List ℕ → Type 0
IsAscii = All (λ c. c < 128)

pub from_utf8_lossy-ascii : (s : List ℕ) → IsAscii s → from_utf8_lossy s ≡ s
unfolding from_utf8_lossy
from_utf8_lossy-ascii [] h = refl
from_utf8_lossy-ascii (c ∷ s) h = ground (arith, from_utf8_lossy-ascii s h.1)

pub from_utf8-ascii : (s : List ℕ) → IsAscii s → from_utf8 s ≡ some s
unfolding from_utf8
from_utf8-ascii [] h = refl
from_utf8-ascii (c ∷ s) h = ground (arith, from_utf8-ascii s h.1)

pub as_bytes-ascii : (s : List ℕ) → IsAscii s → as_bytes s ≡ s
unfolding as_bytes
as_bytes-ascii [] h = refl
as_bytes-ascii (c ∷ s) h = ground (arith, as_bytes-ascii s h.1)
