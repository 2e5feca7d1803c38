-- ===== src/Text/Closed.antt =====
-- What holds of all characters of a text and of a replacement holds of all characters of the text with it.
use dlna_proxy.Common.{ℕ, zero, suc, ◌-◌, [], ◌∷◌, All, All-append, length, Bool-cases, inl, inr}
use dlna_proxy.Text.{Str, starts_with}
use dlna_proxy.Text.Replace.{replace, replace_from, between_chars}

module _ (P : ℕ → Type 0) where
  replace_from-All : (k : ℕ) (p q s : Str) → All P q → All P s → All P (replace_from k p q s)
  unfolding replace_from
  replace_from-All zero p q [] hq hs = tt
  replace_from-All (suc k) p q [] hq hs = tt
  replace_from-All (suc k) p q (c ∷ s) hq hs = replace_from-All k p q s hq hs.1
  replace_from-All zero p q (c ∷ s) hq hs = elim (Bool-cases (starts_with (c ∷ s) p)) [
    | inl found ↦
        rw (found, replace_from)
          (All-append P q _ hq (replace_from-All (length p - 1) p q s hq hs.1))
    | inr other ↦ rw (other, replace_from) (hs.0, replace_from-All zero p q s hq hs.1)
  ]

  between_chars-All : (q s : Str) → All P q → All P s → All P (between_chars q s)
  unfolding between_chars
  between_chars-All q [] hq hs = hq
  between_chars-All q (c ∷ s) hq hs = All-append P q _ hq (hs.0, between_chars-All q s hq hs.1)

  pub replace-All : (s p q : Str) → All P s → All P q → All P (replace s p q)
  unfolding replace
  replace-All s [] q hs hq = between_chars-All q s hq hs
  replace-All s (x ∷ p) q hs hq = replace_from-All zero (x ∷ p) q s hq hs
