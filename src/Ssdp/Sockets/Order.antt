-- ===== src/Ssdp/Sockets/Order.antt =====
-- The order of the socket calls.
use dlna_proxy.Common.{
  Bool, true, false, Option, none, some, List, [], ◌∷◌, ◌++◌, append_assoc, append-nil, ◌≡◌, refl,
  sym, ◌∙◌, Bool-cases, ◌⊎◌, ap, inl, inr, All,
}
use dlna_proxy.Text.{Str}
use dlna_proxy.Net.Addr.{SocketAddr, v4}
use dlna_proxy.Ssdp.Sockets.{
  Call, Role, Os, linux, android, macos, other_os, Made, made, broke, crashed, after, both_devices,
  bind_devices, join_groups, perform, ssdp_sockets, listen, broadcast, create, set_reuse_address,
  set_reuse_port, bind, set_nonblocking, from_std, join_multicast,
}

-- The calls that a socket is to see before it is used: the address options before the bind.
abbrev pub opening_calls : Os → Role → SocketAddr → List Call
opening_calls linux role addr =
    create role
    ∷ set_reuse_address role
    ∷ set_reuse_port role
    ∷ bind role addr
    ∷ set_nonblocking role
    ∷ from_std role
    ∷ []
opening_calls _ role addr =
    create role
    ∷ set_reuse_address role
    ∷ bind role addr
    ∷ set_nonblocking role
    ∷ from_std role
    ∷ []

-- Port 1900 for the socket that listens, and a port of the system's choice for the other.
abbrev pub opened : Os → List Call
opened os =
    opening_calls os listen (record { ip = v4 0 0 0 0; port = 1900 })
    ++ opening_calls os broadcast (record { ip = v4 0 0 0 0; port = 0 })

abbrev pub joined : List Call
joined =
    join_multicast listen (v4 239 255 255 250) ∷ join_multicast broadcast (v4 239 255 255 250) ∷ []

-- Both in the group, and bound to the interface where the system can do that; on macOS an interface is refused.
abbrev pub expected_calls : Os → Option Str → List Call
expected_calls os none = opened os ++ joined
expected_calls linux (some iface) = opened linux ++ (both_devices iface ++ joined)
expected_calls android (some iface) = opened android ++ (both_devices iface ++ joined)
expected_calls macos (some iface) = opened macos
expected_calls other_os (some iface) = opened other_os ++ joined

-- what is returned when all of them succeed
abbrev pub expected_end : Os → Option Str → List Call → Made
expected_end macos (some iface) log = crashed log
expected_end _ iface log = made log

abbrev pub Works : (Call → Bool) → List Call → Type 0
Works works = All (λ c. works c ≡ true)

perform-made :
    (works : Call → Bool) (cs log : List Call)
    → All (λ c. works c ≡ true) cs
    → perform works cs log ≡ made (log ++ cs)
unfolding perform
perform-made works [] log h = rw append-nil
perform-made works (c ∷ cs) log (h, hs) =
    rw h (perform-made works cs (log ++ c ∷ []) hs ∙ rw append_assoc)

perform-broke :
    (works : Call → Bool) (done : List Call) (c : Call) (later log : List Call)
    → All (λ c. works c ≡ true) done
    → works c ≡ false
    → perform works (done ++ c ∷ later) log ≡ broke c (log ++ done)
unfolding perform
perform-broke works [] c later log h f = rw (f, append-nil)
perform-broke works (d ∷ done) c later log (h, hs) f =
    rw h (perform-broke works done c later (log ++ d ∷ []) hs f ∙ rw append_assoc)

perform-append :
    (works : Call → Bool) (cs ds log : List Call)
    → after (perform works cs log) (perform works ds) ≡ perform works (cs ++ ds) log
unfolding perform
perform-append works [] ds log = refl
perform-append works (c ∷ cs) ds log = elim (Bool-cases (works c)) [
  | inl good ↦ rw good (perform-append works cs ds (log ++ c ∷ []))
  | inr no_good ↦ rw no_good
]

after-made : (m : Made) → after m made ≡ m
after-made (made log) = refl
after-made (broke c log) = refl
after-made (crashed log) = refl

after-crashed : (m : Made) (f : List Call → Made) → after (after m crashed) f ≡ after m crashed
after-crashed (made log) f = refl
after-crashed (broke c log) f = refl
after-crashed (crashed log) f = refl

joined_lem :
    (works : Call → Bool) (cs : List Call)
    → after (after (perform works cs []) made) (perform works joined)
      ≡ after (perform works (cs ++ joined) []) made
joined_lem works cs =
    ap (λ m. after m (perform works joined)) (after-made (perform works cs []))
    ∙ perform-append works cs joined []
    ∙ sym (after-made (perform works (cs ++ joined) []))

device_lem :
    (works : Call → Bool) (cs ds : List Call)
    → after (after (perform works cs []) (perform works ds)) (perform works joined)
      ≡ after (perform works (cs ++ (ds ++ joined)) []) made
device_lem works cs ds =
    rw (perform-append works cs ds [], after-made, ← append_assoc cs ds joined)
      (perform-append works (cs ++ ds) joined [])

-- the function as one list of calls, and its end
ssdp_sockets-expected :
    (os : Os) (works : Call → Bool) (iface : Option Str)
    → ssdp_sockets os works iface
      ≡ after (perform works (expected_calls os iface) []) (expected_end os iface)
unfolding ssdp_sockets bind_devices join_groups
ssdp_sockets-expected linux works none = joined_lem works (opened linux)
ssdp_sockets-expected android works none = joined_lem works (opened android)
ssdp_sockets-expected macos works none = joined_lem works (opened macos)
ssdp_sockets-expected other_os works none = joined_lem works (opened other_os)
ssdp_sockets-expected linux works (some iface) =
    device_lem works (opened linux) (both_devices iface)
ssdp_sockets-expected android works (some iface) =
    device_lem works (opened android) (both_devices iface)
ssdp_sockets-expected macos works (some iface) =
    after-crashed (perform works (opened macos) []) (perform works joined)
ssdp_sockets-expected other_os works (some iface) = joined_lem works (opened other_os)

-- the first call of a list that fails
pub record FirstFailure (works : Call → Bool) (cs : List Call) : Type 0 where
  pub before : List Call
  pub call : Call
  pub later : List Call
  pub splits : cs ≡ before ++ call ∷ later
  pub worked : Works works before
  pub fails : works call ≡ false

first_failure : (works : Call → Bool) (cs : List Call) → Works works cs ⊎ FirstFailure works cs
first_failure works [] = inl tt
first_failure works (c ∷ cs) = elim (Bool-cases (works c)) [
  | inr no_good ↦
      inr
        (record { before = []; call = c; later = cs; splits = refl; worked = tt; fails = no_good })
  | inl good ↦ elim (first_failure works cs) [
    | inl all ↦ inl (good, all)
    | inr f ↦ inr (record {
      before = c ∷ f.before;
      call = f.call;
      later = f.later;
      splits = ap (◌∷◌ c) f.splits;
      worked = (good, f.worked);
      fails = f.fails;
    })
  ]
]

-- On each operating system: either every call succeeds, and the two sockets are made by exactly the expected
-- calls, in that order, except that on macOS an interface makes the function panic behind the opening of both; or
-- the function stops at the first call that fails, with that call's error and the calls before it made.
pub ssdp_sockets_outcome :
    (os : Os) (works : Call → Bool) (iface : Option Str)
    → (Works works (expected_calls os iface)
        × (ssdp_sockets os works iface ≡ expected_end os iface (expected_calls os iface)))
      ⊎ ((f : FirstFailure works (expected_calls os iface)) × (ssdp_sockets os works iface
            ≡ broke f.call f.before))
ssdp_sockets_outcome os works iface = elim (first_failure works (expected_calls os iface)) [
  | inl all ↦ inl (
    all,
    ssdp_sockets-expected os works iface ∙ rw (perform-made works (expected_calls os iface) [] all),
  )
  | inr f ↦ inr (
    f,
    ssdp_sockets-expected os works iface
        ∙ rw (f.splits, perform-broke works f.before f.call f.later [] f.worked f.fails),
  )
]
