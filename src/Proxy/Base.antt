-- ===== src/Proxy/Base.antt =====
-- tcp_proxy.rs: the URL bases of `TCPProxy::new`.
use dlna_proxy.Common.{
  ℕ, ◌≤◌, ◌<◌, ◌^◌, [], ◌∷◌, ◌++◌, append_assoc, ◌≡◌, refl, sym, subst, ap, ◌∙◌, arith, All, Lacks,
  drop, some,
}
use dlna_proxy.Text.{Str, codes}
use dlna_proxy.Text.Number.{to_decimal, from_str_radix, usize_max}
use dlna_proxy.Text.Digits.{IsHex, to_decimal-IsHex, from_str_radix-to_decimal}
use dlna_proxy.Net.Addr.{SocketAddr, v4, show_ip}
use dlna_proxy.Proxy.{url_base}

IsHex-Lacks : (sep : ℕ) (s : Str) → ¬ IsHex sep → All IsHex s → Lacks sep s
IsHex-Lacks sep [] outside h = tt
IsHex-Lacks sep (c ∷ s) outside (h, hs) =
    (λ e. outside (subst IsHex e h), IsHex-Lacks sep s outside hs)

-- Two parts in front of the first separator.
cut_at :
    (sep : ℕ) (x y r s : Str)
    → Lacks sep x
    → Lacks sep y
    → x ++ sep ∷ r ≡ y ++ sep ∷ s
    → (x ≡ y) × (r ≡ s)
cut_at sep [] [] r s hx hy e = (refl, cc)
cut_at sep [] (c ∷ y) r s hx hy e = ground (arith, e, hy.0)
cut_at sep (c ∷ x) [] r s hx hy e = ground (arith, e, hx.0)
cut_at sep (c ∷ x) (d ∷ y) r s hx hy e =
    let (front, behind) = cut_at sep x y r s hx.1 hy.1 (ap (drop 1) e) in
    let first : c ≡ d = cc in (cc, behind)

to_decimal-injective :
    (m n : ℕ) → m ≤ usize_max → n ≤ usize_max → to_decimal m ≡ to_decimal n → m ≡ n
to_decimal-injective m n hm hn e =
    let same : some m ≡ some n =
      sym (from_str_radix-to_decimal m hm)
      ∙ ap (from_str_radix 10) e
      ∙ from_str_radix-to_decimal n hn in
    cc

-- Two numbers in front of the same separator, which is no digit.
number_at :
    (sep m n : ℕ) (r s : Str)
    → ¬ IsHex sep
    → m ≤ usize_max
    → n ≤ usize_max
    → to_decimal m ++ sep ∷ r ≡ to_decimal n ++ sep ∷ s
    → (m ≡ n) × (r ≡ s)
number_at sep m n r s outside hm hn e =
    let (same, behind) =
      cut_at sep (to_decimal m) (to_decimal n) r s
        (IsHex-Lacks sep (to_decimal m) outside (to_decimal-IsHex m))
        (IsHex-Lacks sep (to_decimal n) outside (to_decimal-IsHex n)) e in
    (to_decimal-injective m n hm hn same, behind)

-- an address as the parts of its base
abbrev v4_base : (a b c d port : ℕ) → Str
v4_base a b c d port =
    to_decimal a
    ++ b'.'
      ∷ (to_decimal b ++ b'.' ∷ (to_decimal c ++ b'.' ∷ (to_decimal d ++ b':' ∷ to_decimal port)))

url_base_v4 :
    (a b c d port : ℕ)
    → url_base (record { ip = v4 a b c d; port = port }) ≡ codes "http://" ++ v4_base a b c d port
unfolding url_base show_ip
url_base_v4 a b c d port = simp append_assoc

parts :
    (addr : SocketAddr) (a b c d : ℕ)
    → addr.ip ≡ v4 a b c d
    → url_base addr ≡ codes "http://" ++ v4_base a b c d addr.port
parts addr a b c d ip =
    ap (λ i. url_base (record { ip = i; port = addr.port })) ip ∙ url_base_v4 a b c d addr.port

-- octets of a byte and a port of 16 bits
abbrev pub IsV4 : SocketAddr → Type 0
IsV4 addr =
    (a : ℕ) × (b : ℕ) × (c : ℕ) × (d : ℕ) × (addr.ip ≡ v4 a b c d)
    × (a < 256)
    × (b < 256)
    × (c < 256)
    × (d < 256)
    × (addr.port < 2 ^ 16)

v4_base-injective :
    (a b c d p a' b' c' d' p' : ℕ)
    → (a < 256) × (b < 256) × (c < 256) × (d < 256) × (p < 2 ^ 16)
    → (a' < 256) × (b' < 256) × (c' < 256) × (d' < 256) × (p' < 2 ^ 16)
    → v4_base a b c d p ≡ v4_base a' b' c' d' p'
    → (a ≡ a') × (b ≡ b') × (c ≡ c') × (d ≡ d') × (p ≡ p')
v4_base-injective a b c d p a' b' c' d' p' (ha, hb, hc, hd, hp) (ha', hb', hc', hd', hp') e =
    let no_dot : ¬ IsHex b'.' = ground arith in
    let no_colon : ¬ IsHex b':' = ground arith in
    let (same_a, e1) = number_at b'.' a a' _ _ no_dot (omega arith) (omega arith) e in
    let (same_b, e2) = number_at b'.' b b' _ _ no_dot (omega arith) (omega arith) e1 in
    let (same_c, e3) = number_at b'.' c c' _ _ no_dot (omega arith) (omega arith) e2 in
    let (same_d, e4) = number_at b':' d d' _ _ no_colon (omega arith) (omega arith) e3 in
    (same_a, same_b, same_c, same_d, to_decimal-injective p p' (omega arith) (omega arith) e4)

-- Two IPv4 socket addresses that have the same URL base are the same: what is replaced in a body stands for one
-- server, and what is put in its place for one proxy.
url_base-injective :
    (addr other : SocketAddr)
    → IsV4 addr
    → IsV4 other
    → url_base addr ≡ url_base other
    → addr ≡ other
url_base-injective addr other (a, b, c, d, ip, ha, hb, hc, hd, hp)
      (a', b', c', d', ip', ha', hb', hc', hd', hp') e =
    let (same_a, same_b, same_c, same_d, same_port) =
      v4_base-injective a b c d addr.port a' b' c' d' other.port (ha, hb, hc, hd, hp)
        (ha', hb', hc', hd', hp')
        (ap (drop 7) (sym (parts addr a b c d ip) ∙ e ∙ parts other a' b' c' d' ip')) in
    let same_ip : addr.ip ≡ other.ip = cc in
    ap (λ i. record { ip = i; port = addr.port }) same_ip
    ∙ ap (λ p. record { ip = other.ip; port = p }) same_port
