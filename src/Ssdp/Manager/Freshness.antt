-- ===== src/Ssdp/Manager/Freshness.antt =====
-- ssdp/mod.rs: the announcements of a running manager against the lifetime that they promise.
use dlna_proxy.Common.{
  ℕ, ◌^◌, ◌≤◌, ◌<◌, Bool, Option, some, List, ◌∷◌, ◌≡◌, sym, subst, arith, All, Bool-cases, inl,
  inr,
}
use dlna_proxy.Text.{Bytes, Str}
use dlna_proxy.Ssdp.Utils.{World}
use dlna_proxy.Ssdp.Listener.{Request, Received}
use dlna_proxy.Ssdp.Broadcast.{Broadcaster, Round}
use dlna_proxy.Ssdp.Broadcast.Pace.{Within, broadcast_task-Within}
use dlna_proxy.Ssdp.Sockets.{Call, Os, ssdp_sockets, Made, made, broke, crashed}
use dlna_proxy.Ssdp.Manager.{
  SsdpManager, created, refused, client_failed, with_sockets, initial_byebye, cache_max_age, new,
  main_task,
}
use dlna_proxy.Ssdp.Manager.Lifetime.{cache_max_age_bounds}

-- the period and the lifetime of a manager
abbrev IsTimed : ℕ → SsdpManager → Type 0
IsTimed period ssdp =
    (ssdp.broadcast_period ≡ period) × (ssdp.interactive_ssdp.cache_max_age ≡ cache_max_age period)

with_sockets-IsTimed :
    (url : Str) (period : ℕ) (m : Made) (ssdp : SsdpManager)
    → with_sockets url period m ≡ created ssdp
    → IsTimed period ssdp
unfolding with_sockets
with_sockets-IsTimed url period (broke c log) ssdp h = cc
with_sockets-IsTimed url period (crashed log) ssdp h = cc
with_sockets-IsTimed url period (made log) ssdp h = (cc, cc)

new-IsTimed :
    (os : Os) (builds : Option ℕ → Bool) (works : Call → Bool) (url : Str) (period : ℕ)
    (timeout : Option ℕ) (iface : Option Str) (ssdp : SsdpManager)
    → new os builds works url period timeout iface ≡ created ssdp
    → IsTimed period ssdp
unfolding new
new-IsTimed os builds works url period timeout iface ssdp h = elim (Bool-cases (builds timeout)) [
  | inl builds_client ↦
      with_sockets-IsTimed url period (ssdp_sockets os works iface) ssdp (rw builds_client at h)
  | inr fails ↦ let never : refused client_failed ≡ created ssdp = rw fails at h in cc
]

-- For a manager made with a positive period below 2^63 seconds: while no round takes longer than the period, each
-- announcement begins before the lifetime that the one before it promises is over, from the first one, which is
-- made at once, on.
pub main_task-fresh :
    (os : Os) (builds : Option ℕ → Bool) (works : Call → Bool) (url : Str) (period : ℕ)
    (timeout : Option ℕ) (iface : Option Str) (ssdp : SsdpManager) (parse : Bytes → Option Request)
    (wait_mode : Bool) (w : World) (r : Round) (rounds : List Round) (received : List Received)
    → new os builds works url period timeout iface ≡ created ssdp
    → 0 < period
    → period < 2 ^ 63
    → All (λ r. r.lasts ≤ period) (r ∷ rounds)
    → (b : Broadcaster) × (starts : List ℕ) × ((main_task parse ssdp wait_mode w
          (r ∷ rounds)
          received).broadcasting
        ≡ some b)
      × (b.began ≡ 0 ∷ starts)
      × Within ssdp.interactive_ssdp.cache_max_age 0 starts
unfolding main_task
main_task-fresh os builds works url period timeout iface ssdp parse wait_mode w r rounds received
      makes pos fits short =
    let (same, age) = new-IsTimed os builds works url period timeout iface ssdp makes in
    let (lasts, (longer, rest)) = cache_max_age_bounds period fits in
    broadcast_task-Within ssdp.interactive_ssdp ssdp.broadcast_period
      ssdp.interactive_ssdp.cache_max_age r rounds
      (initial_byebye wait_mode w ssdp.interactive_ssdp) (omega (arith, same))
      (omega (arith, same, age, longer))
      (subst (λ p. All (λ r. r.lasts ≤ p) (r ∷ rounds)) (sym same) short)
