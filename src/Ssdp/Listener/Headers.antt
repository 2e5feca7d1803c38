-- ===== src/Ssdp/Listener/Headers.antt =====
-- The header map of `parse_ssdp`: names in upper case, and the last value of a name counts.
use dlna_proxy.Common.{
  ℕ, true, Option, some, List, [], ◌∷◌, ◌++◌, ◌↔◌, ◌≢◌, ◌≡◌, refl, arith, All, if◌then◌else◌, ◌∙◌,
}
use dlna_proxy.Text.{Str, equal}
use dlna_proxy.Text.Utf8.{from_utf8_lossy}
use dlna_proxy.Ssdp.Listener.{
  Header, HeaderMap, get, insert, to_uppercase, parsed, out_of_bounds, collect,
}

pub equal_iff : (a b : List ℕ) → (equal a b ≡ true) ↔ (a ≡ b)
unfolding equal
equal_iff [] [] = ground arith
equal_iff [] (y ∷ b) = ground arith
equal_iff (x ∷ a) [] = ground arith
equal_iff (x ∷ a) (y ∷ b) = ground (arith, equal_iff a b)

get-insert :
    (k j v : Str) (m : HeaderMap) → get j (insert k v m) ≡ (if equal k j then some v else get j m)
unfolding get insert
get-insert k j v [] = refl
get-insert k j v ((i, w) ∷ m) =
    ground (arith, equal_iff k j, equal_iff i k, equal_iff i j, get-insert k j v m)

-- The value of the last header with a name, whatever the case of its letters.
abbrev pub last_value : Str → List Header → Option Str → Option Str
last_value k [] found = found
last_value k (h ∷ hs) found =
    last_value k hs
      (if equal (to_uppercase h.name) k then some (from_utf8_lossy h.value) else found)

-- the map after the loop
abbrev pub collected : List Header → HeaderMap → HeaderMap
collected [] m = m
collected (h ∷ hs) m = collected hs (insert (to_uppercase h.name) (from_utf8_lossy h.value) m)

pub get-collected :
    (k : Str) (hs : List Header) (m : HeaderMap)
    → get k (collected hs m) ≡ last_value k hs (get k m)
get-collected k [] m = refl
get-collected k (h ∷ hs) m =
    get-collected k hs (insert (to_uppercase h.name) (from_utf8_lossy h.value) m)
    ∙ rw (get-insert (to_uppercase h.name) k (from_utf8_lossy h.value) m)

abbrev pub IsNamed : Header → Type 0
IsNamed h = h.name ≢ []

-- a slot that the parser left empty
abbrev pub IsEmpty : Header → Type 0
IsEmpty h = h.name ≡ []

cons_of : (s : Str) → s ≢ [] → (c : ℕ) × (cs : Str) × (s ≡ c ∷ cs)
cons_of [] h = absurd (h refl)
cons_of (c ∷ cs) h = (c, cs, refl)

collect_named :
    (method : Str) (h : Header) (hs : List Header) (m : HeaderMap)
    → IsNamed h
    → collect method (h ∷ hs) m
      ≡ collect method hs (insert (to_uppercase h.name) (from_utf8_lossy h.value) m)
unfolding collect
collect_named method h hs m n = let (c, cs, e) = cons_of h.name n in rw e

pub collect-parsed :
    (method : Str) (hs : List Header) (empty : Header) (rest : List Header) (m : HeaderMap)
    → All IsNamed hs
    → IsEmpty empty
    → collect method (hs ++ empty ∷ rest) m ≡ parsed method (collected hs m)
collect-parsed method [] empty rest m h e = unfold collect in rw e
collect-parsed method (x ∷ hs) empty rest m (n, h) e =
    collect_named method x (hs ++ empty ∷ rest) m n ∙ collect-parsed method hs empty rest _ h e

-- With no empty slot the loop runs past the end of the array.
pub collect-out_of_bounds :
    (method : Str) (hs : List Header) (m : HeaderMap)
    → All IsNamed hs
    → collect method hs m ≡ out_of_bounds
collect-out_of_bounds method [] m h = unfold collect in refl
collect-out_of_bounds method (x ∷ hs) m (n, h) =
    collect_named method x hs m n ∙ collect-out_of_bounds method hs _ h
