-- ===== src/Text/Matches.antt =====
-- `replace` as a relation: the text is cut into matches of the pattern, taken from the left with no overlap, and
-- characters at which the pattern does not match.
use dlna_proxy.Common.{
  ℕ, zero, ◌-◌, true, false, [], ◌∷◌, ◌++◌, ◌≢◌, ◌≡◌, refl, ap, ◌∙◌, arith, ◌==◌, length, All,
  All-append,
}
use dlna_proxy.Text.{Str, starts_with}
use dlna_proxy.Text.Replace.{replace, replace_from}

pub data Replaced (p q : Str) : Str → Str → Type 0 where
  finish : Replaced p q [] []
  keep :
      {c : ℕ} {s t : Str}
      → starts_with (c ∷ s) p ≡ false
      → Replaced p q s t
      → Replaced p q (c ∷ s) (c ∷ t)
  swap : {s t : Str} → Replaced p q s t → Replaced p q (p ++ s) (q ++ t)

starts_with-append : (p s : Str) → starts_with (p ++ s) p ≡ true
unfolding starts_with
starts_with-append [] s = refl
starts_with-append (c ∷ p) s =
    let same : (c == c) ≡ true = ground arith in rw same (starts_with-append p s)

-- The rest of a match is passed over.
replace_from-length :
    (x p q s : Str) → replace_from (length x) p q (x ++ s) ≡ replace_from zero p q s
unfolding replace_from
replace_from-length [] p q s = refl
replace_from-length (c ∷ x) p q s = replace_from-length x p q s

replace_from-swap :
    (a : ℕ) (p q s : Str)
    → replace_from zero (a ∷ p) q ((a ∷ p) ++ s) ≡ q ++ replace_from zero (a ∷ p) q s
unfolding replace_from
replace_from-swap a p q s =
    let less : length (a ∷ p) - 1 ≡ length p = omega arith in
    rw (starts_with-append (a ∷ p) s, replace_from, less)
      (ap (◌++◌ q) (replace_from-length p (a ∷ p) q s))

replace_from-keep :
    (c : ℕ) (p q s : Str)
    → starts_with (c ∷ s) p ≡ false
    → replace_from zero p q (c ∷ s) ≡ c ∷ replace_from zero p q s
unfolding replace_from
replace_from-keep c p q s h = rw (h, replace_from)

replace_from-Replaced :
    (a : ℕ) (p q : Str) {s t : Str} → Replaced (a ∷ p) q s t → replace_from zero (a ∷ p) q s ≡ t
replace_from-Replaced a p q finish = unfold replace_from in refl
replace_from-Replaced a p q (keep {c} {s} h r) =
    replace_from-keep c (a ∷ p) q s h ∙ ap (◌∷◌ c) (replace_from-Replaced a p q r)
replace_from-Replaced a p q (swap {s} {t} r) =
    replace_from-swap a p q s ∙ ap (◌++◌ q) (replace_from-Replaced a p q r)

pub replace-Replaced : (p q : Str) {s t : Str} → p ≢ [] → Replaced p q s t → replace s p q ≡ t
unfolding replace
replace-Replaced [] q ne r = absurd (ne refl)
replace-Replaced (a ∷ p) q ne r = replace_from-Replaced a p q r

-- Every character of the result stands in the text or in the replacement.
pub All-Replaced :
    (P : ℕ → Type 0) (p q : Str) {s t : Str} → Replaced p q s t → All P q → All P s → All P t
All-Replaced P p q finish hq hs = tt
All-Replaced P p q (keep h r) hq (hc, hs) = (hc, All-Replaced P p q r hq hs)
All-Replaced P p q (swap {s} {t} r) hq hs =
    All-append P q t hq (All-Replaced P p q r hq (tail_All p s hs))
  where
    tail_All : (p s : Str) → All P (p ++ s) → All P s
    tail_All [] s h = h
    tail_All (c ∷ p) s h = tail_All p s h.1
