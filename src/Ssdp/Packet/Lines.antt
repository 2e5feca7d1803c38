-- ===== src/Ssdp/Packet/Lines.antt =====
-- The messages, line by line.
use dlna_proxy.Common.{
  ℕ, List, [], ◌∷◌, ◌++◌, append_assoc, ◌≡◌, ◌≢◌, arith, All, All-append, Lacks,
}
use dlna_proxy.Text.{Str, codes, lf, lines}
use dlna_proxy.Text.Lines.{crlf_lines, lines-crlf_lines}
use dlna_proxy.Text.Closed.{replace-All}
use dlna_proxy.Text.Digits.{IsHex, to_decimal-IsHex}
use dlna_proxy.Text.Number.{to_decimal}
use dlna_proxy.Text.Replace.{replace}
use dlna_proxy.Ssdp.Packet.{SsdpPacket, alive, ok, bye_bye, fmt}

-- the lines of a message
abbrev pub packet_lines : Str → SsdpPacket → List Str
packet_lines now (alive url server udn device age) =
    codes "NOTIFY * HTTP/1.1"
    ∷ codes "HOST:239.255.255.250:1900"
    ∷ (codes "CACHE-CONTROL:max-age=" ++ to_decimal age)
    ∷ (codes "LOCATION:" ++ url)
    ∷ (codes "SERVER: " ++ server)
    ∷ (codes "NT:" ++ device)
    ∷ (codes "USN:" ++ (udn ++ (codes "::" ++ device)))
    ∷ codes "NTS:ssdp:alive"
    ∷ []
    ∷ []
packet_lines now (ok url server udn device age) =
    codes "HTTP/1.1 200 OK"
    ∷ (codes "CACHE-CONTROL:max-age=" ++ to_decimal age)
    ∷ (codes "DATE: " ++ replace now (codes "+0000") (codes "GMT"))
    ∷ (codes "ST: " ++ device)
    ∷ (codes "USN:" ++ (udn ++ (codes "::" ++ device)))
    ∷ codes "EXT:"
    ∷ (codes "SERVER: " ++ server)
    ∷ (codes "LOCATION:" ++ url)
    ∷ codes "Content-Length: 0"
    ∷ []
    ∷ []
packet_lines now (bye_bye udn device) =
    codes "NOTIFY * HTTP/1.1"
    ∷ codes "HOST:239.255.255.250:1900"
    ∷ (codes "NT:" ++ device)
    ∷ (codes "USN:" ++ (udn ++ (codes "::" ++ device)))
    ∷ codes "NTS:ssdp:byebye"
    ∷ []
    ∷ []

-- the text fields of a message hold no LF
abbrev pub IsPlain : SsdpPacket → Type 0
IsPlain (alive url server udn device age) =
    Lacks lf url × Lacks lf server × Lacks lf udn × Lacks lf device
IsPlain (ok url server udn device age) =
    Lacks lf url × Lacks lf server × Lacks lf udn × Lacks lf device
IsPlain (bye_bye udn device) = Lacks lf udn × Lacks lf device

fmt-packet_lines : (now : Str) (p : SsdpPacket) → fmt now p ≡ crlf_lines (packet_lines now p)
unfolding fmt
fmt-packet_lines now (alive url server udn device age) = simp append_assoc
fmt-packet_lines now (ok url server udn device age) = simp append_assoc
fmt-packet_lines now (bye_bye udn device) = simp append_assoc

decimal-Lacks : (s : Str) → All IsHex s → Lacks lf s
decimal-Lacks [] h = tt
decimal-Lacks (c ∷ s) h = (ground arith, decimal-Lacks s h.1)

usn-Lacks :
    (udn device : Str) → Lacks lf udn → Lacks lf device → Lacks lf (udn ++ (codes "::" ++ device))
usn-Lacks udn device hu hd =
    All-append _ udn _ hu (All-append _ (codes "::") device (omega arith) hd)

with_prefix : (p x : Str) → Lacks lf p → Lacks lf x → Lacks lf (p ++ x)
with_prefix p x hp hx = All-append _ p x hp hx

age-Lacks : (age : ℕ) → Lacks lf (codes "CACHE-CONTROL:max-age=" ++ to_decimal age)
age-Lacks age =
    with_prefix (codes "CACHE-CONTROL:max-age=") _ (omega arith)
      (decimal-Lacks _ (to_decimal-IsHex age))

packet_lines-Lacks :
    (now : Str) (p : SsdpPacket) → Lacks lf now → IsPlain p → All (Lacks lf) (packet_lines now p)
packet_lines-Lacks now (alive url server udn device age) hn (hu, hs, hd, ht) = (
  omega arith,
  (
    omega arith,
    (
      age-Lacks age,
      (
        with_prefix (codes "LOCATION:") url (omega arith) hu,
        (
          with_prefix (codes "SERVER: ") server (omega arith) hs,
          (
            with_prefix (codes "NT:") device (omega arith) ht,
            (
              with_prefix (codes "USN:") _ (omega arith) (usn-Lacks udn device hd ht),
              (omega arith, (tt, tt)),
            ),
          ),
        ),
      ),
    ),
  ),
)
packet_lines-Lacks now (ok url server udn device age) hn (hu, hs, hd, ht) = (
  omega arith,
  (
    age-Lacks age,
    (
      with_prefix (codes "DATE: ") _ (omega arith)
          (replace-All (λ c. c ≢ lf) now (codes "+0000") (codes "GMT") hn (omega arith)),
      (
        with_prefix (codes "ST: ") device (omega arith) ht,
        (
          with_prefix (codes "USN:") _ (omega arith) (usn-Lacks udn device hd ht),
          (
            omega arith,
            (
              with_prefix (codes "SERVER: ") server (omega arith) hs,
              (with_prefix (codes "LOCATION:") url (omega arith) hu, (omega arith, (tt, tt))),
            ),
          ),
        ),
      ),
    ),
  ),
)
packet_lines-Lacks now (bye_bye udn device) hn (hd, ht) = (
  omega arith,
  (
    omega arith,
    (
      with_prefix (codes "NT:") device (omega arith) ht,
      (
        with_prefix (codes "USN:") _ (omega arith) (usn-Lacks udn device hd ht),
        (omega arith, (tt, tt)),
      ),
    ),
  ),
)

-- A message whose fields hold no line feed is its request or status line, its headers and an empty line, each of
-- them ended by CR LF and by nothing else; and a reader that splits it into lines finds exactly these lines.
pub lines-fmt :
    (now : Str) (p : SsdpPacket)
    → Lacks lf now
    → IsPlain p
    → (fmt now p ≡ crlf_lines (packet_lines now p)) × (lines (fmt now p) ≡ packet_lines now p)
lines-fmt now p hn h = (
  fmt-packet_lines now p,
  rw (fmt-packet_lines now p)
      (lines-crlf_lines (packet_lines now p) (packet_lines-Lacks now p hn h)),
)
