-- ===== src/Text/Split.antt =====
-- `split`, `to_lowercase` and `starts_with` on a text of several parts.
use dlna_proxy.Common.{
  ℕ, true, false, [], ◌∷◌, ◌++◌, append_assoc, append-nil, ◌≡◌, refl, sym, ap, ◌∙◌, arith, ◌==◌,
  Lacks,
}
use dlna_proxy.Text.{Str, cr, lower_char, to_lowercase, starts_with, split, split_onto}

pub to_lowercase-append : (s t : Str) → to_lowercase (s ++ t) ≡ to_lowercase s ++ to_lowercase t
unfolding to_lowercase
to_lowercase-append [] t = refl
to_lowercase-append (c ∷ s) t =
    ap (◌++◌ (lower_char c)) (to_lowercase-append s t)
    ∙ sym (append_assoc (lower_char c) (to_lowercase s) (to_lowercase t))

pub starts_with-cr : (a p s : Str) → Lacks cr p → starts_with (a ++ cr ∷ s) p ≡ starts_with a p
unfolding starts_with
starts_with-cr [] [] s h = refl
starts_with-cr (c ∷ a) [] s h = refl
starts_with-cr [] (x ∷ p) s h = ground (arith, h.0)
starts_with-cr (c ∷ a) (x ∷ p) s h = rw (starts_with-cr a p s h.1)

split_onto-Lacks : (sep : ℕ) (cur s : Str) → Lacks sep s → split_onto sep cur s ≡ (cur ++ s) ∷ []
unfolding split_onto
split_onto-Lacks sep cur [] h = rw append-nil
split_onto-Lacks sep cur (c ∷ s) h =
    let other : (c == sep) ≡ false = ground (arith, h.0) in
    rw (other, split_onto) (split_onto-Lacks sep (cur ++ c ∷ []) s h.1 ∙ rw append_assoc)

split_onto_first :
    (sep : ℕ) (cur a s : Str)
    → Lacks sep a
    → Lacks sep s
    → split_onto sep cur (a ++ sep ∷ s) ≡ (cur ++ a) ∷ s ∷ []
unfolding split_onto
split_onto_first sep cur [] s ha hs =
    let same : (sep == sep) ≡ true = ground arith in
    rw (same, split_onto, append-nil) (ap (◌∷◌ cur) (split_onto-Lacks sep [] s hs))
split_onto_first sep cur (c ∷ a) s ha hs =
    let other : (c == sep) ≡ false = ground (arith, ha.0) in
    rw (other, split_onto) (split_onto_first sep (cur ++ c ∷ []) a s ha.1 hs ∙ rw append_assoc)

-- A text with one separator: the part behind it.
pub split_second :
    (sep : ℕ) (a s : Str) → Lacks sep a → Lacks sep s → split (a ++ sep ∷ s) sep ≡ a ∷ s ∷ []
unfolding split
split_second sep a s ha hs = split_onto_first sep [] a s ha hs
