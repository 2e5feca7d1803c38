-- ===== src/Text/Replace.antt =====
-- `str::replace`: every match of the pattern, from the left, with no overlap.
use dlna_proxy.Common.{ℕ, zero, suc, ◌-◌, true, false, [], ◌∷◌, ◌++◌, length}
use dlna_proxy.Text.{Str, starts_with}

-- The first argument counts the characters of a match that are still to be passed over.
unfoldable pub replace_from : ℕ → Str → Str → Str → Str
replace_from k p q [] = []
replace_from (suc k) p q (c ∷ s) = replace_from k p q s
replace_from zero p q (c ∷ s) = elim (starts_with (c ∷ s) p) [
  | true ↦ q ++ replace_from (length p - 1) p q s
  | false ↦ c ∷ replace_from zero p q s
]

-- An empty pattern matches at each end of each character.
unfoldable pub between_chars : Str → Str → Str
between_chars q [] = q
between_chars q (c ∷ s) = q ++ c ∷ between_chars q s

unfoldable pub replace : Str → Str → Str → Str
unfolding replace_from between_chars starts_with
replace s [] q = between_chars q s
replace s (x ∷ p) q = replace_from zero (x ∷ p) q s
