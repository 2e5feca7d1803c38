-- ===== src/Ssdp/Manager/Lifetime.antt =====
-- The lifetime that the announcements promise.
use dlna_proxy.Common.{ℕ, ◌*◌, ◌^◌, ◌≤◌, ◌<◌, ◌⊎◌, ◌≡◌, arith, inl, inr, ltb, Bool-cases}
use dlna_proxy.Ssdp.Manager.{cache_max_age}

-- For a period below 2^63 seconds the promised lifetime is at least 20 seconds and is above the period, so a
-- device does not expire between two announcements; from 20 seconds on it is twice the period, and one
-- announcement may be lost.
pub cache_max_age_bounds :
    (n : ℕ)
    → n < 2 ^ 63
    → (20 ≤ cache_max_age n) × ((n < cache_max_age n) × ((n < 20) ⊎ (cache_max_age n ≡ 2 * n)))
unfolding cache_max_age
cache_max_age_bounds n h = ground arith

-- From 2^63 seconds on the product wraps around, and the promised lifetime is below the period.
cache_max_age_wraps : (n : ℕ) → 2 ^ 63 ≤ n → n < 2 ^ 64 → cache_max_age n < n
unfolding cache_max_age
cache_max_age_wraps n h k = ground arith

-- For every period of a u64: below 2^63 seconds the promised lifetime is at least 20 seconds and above the period,
-- and from 20 seconds on twice the period; from 2^63 seconds on the product wraps around, and the lifetime is
-- below the period.
pub cache_max_age_range :
    (n : ℕ)
    → n < 2 ^ 64
    → ((n < 2 ^ 63)
        × (20 ≤ cache_max_age n)
        × (n < cache_max_age n)
        × ((n < 20) ⊎ (cache_max_age n ≡ 2 * n)))
      ⊎ ((2 ^ 63 ≤ n) × (cache_max_age n < n))
cache_max_age_range n h = elim (Bool-cases (ltb n (2 ^ 63))) [
  | inl below ↦
      let fits : n < 2 ^ 63 = ground arith in
      let (least, (above, twice)) = cache_max_age_bounds n fits in inl (fits, least, above, twice)
  | inr not_below ↦ let over : 2 ^ 63 ≤ n = ground arith in inr (over, cache_max_age_wraps n over h)
]
