-- ===== src/Text/Trim.antt =====
-- `trim` on a text with no white space inside.
use dlna_proxy.Common.{ℕ, false, [], ◌∷◌, ◌++◌, ◌≢◌, ◌≡◌, refl, arith, All, append-nil}
use dlna_proxy.Text.{Str, is_whitespace, trim_start, keep_char, trim_end, trim}
use dlna_proxy.Text.Digits.{IsHex}

abbrev pub IsSolid : Str → Type 0
IsSolid = All (λ c. is_whitespace c ≡ false)

keep_char_solid : (c : ℕ) (s : Str) → is_whitespace c ≡ false → keep_char c s ≡ c ∷ s
unfolding keep_char
keep_char_solid c [] h = rw h
keep_char_solid c (d ∷ s) h = refl

trim_end-append : (s t : Str) → IsSolid s → trim_end t ≡ [] → trim_end (s ++ t) ≡ s
unfolding trim_end
trim_end-append [] t h e = e
trim_end-append (c ∷ s) t h e = rw (trim_end-append s t h.1 e) (keep_char_solid c s h.0)

trim_start-append : (s t : Str) → IsSolid s → s ≢ [] → trim_start (s ++ t) ≡ s ++ t
unfolding trim_start
trim_start-append [] t h ne = absurd (ne refl)
trim_start-append (c ∷ s) t h ne = rw h.0

-- White space behind a solid text is dropped.
trim-append : (s t : Str) → IsSolid s → s ≢ [] → trim_end t ≡ [] → trim (s ++ t) ≡ s
unfolding trim
trim-append s t h ne e = rw (trim_start-append s t h ne) (trim_end-append s t h e)

pub trim_solid : (s : Str) → IsSolid s → s ≢ [] → trim s ≡ s
unfolding trim_end
trim_solid s h ne = rw (append-nil s) at (trim-append s [] h ne refl)

-- One blank before, and a line's end behind.
pub trim_value : (s : Str) → IsSolid s → s ≢ [] → trim (b' ' ∷ (s ++ 13 ∷ 10 ∷ [])) ≡ s
unfolding trim trim_end trim_start is_whitespace keep_char
trim_value s h ne = trim-append s (13 ∷ 10 ∷ []) h ne refl

pub IsHex-IsSolid : (s : Str) → All IsHex s → IsSolid s
unfolding is_whitespace
IsHex-IsSolid [] h = tt
IsHex-IsSolid (c ∷ s) h = (ground arith, IsHex-IsSolid s h.1)
