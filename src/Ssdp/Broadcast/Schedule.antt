-- ===== src/Ssdp/Broadcast/Schedule.antt =====
-- When the announcements are made, and that a failure does not stop them.
use dlna_proxy.Common.{
  ℕ, ◌+◌, ◌≤◌, ◌<◌, some, List, [], ◌∷◌, ◌++◌, append_assoc, append-nil, ◌≡◌, refl, arith, ◌∙◌, sym,
  All,
}
use dlna_proxy.Ssdp.Broadcast.{
  Round, Broadcaster, broadcast_round, broadcast_rounds, broadcast_task, do_ssdp_alive,
}
use dlna_proxy.Ssdp.Utils.{InteractiveSsdp, Sent}

-- what the rounds send, each on its own
abbrev pub announced : InteractiveSsdp → List Round → Sent → Sent
announced helper [] sent = sent
announced helper (r ∷ rs) sent = announced helper rs (do_ssdp_alive r.world helper sent).1

-- the times p, 2p, ..., from a first one
abbrev pub every : ℕ → ℕ → List Round → List ℕ
every period at [] = []
every period at (r ∷ rs) = at ∷ every period (at + period) rs

pub broadcast_rounds-sent :
    (helper : InteractiveSsdp) (period : ℕ) (rs : List Round) (b : Broadcaster)
    → (broadcast_rounds helper period rs b).sent ≡ announced helper rs b.sent
unfolding broadcast_rounds broadcast_round
broadcast_rounds-sent helper period [] b = refl
broadcast_rounds-sent helper period (r ∷ rs) b =
    broadcast_rounds-sent helper period rs (broadcast_round helper period r b)

-- While rounds are shorter than the period and the clock has met the last tick, rounds are a period apart.
broadcast_rounds-began :
    (helper : InteractiveSsdp) (period : ℕ) (rs : List Round) (b : Broadcaster)
    → b.deadline ≡ b.now + period
    → All (λ r. r.lasts < period) rs
    → (broadcast_rounds helper period rs b).began ≡ b.began ++ every period b.now rs
unfolding broadcast_rounds broadcast_round
broadcast_rounds-began helper period [] b d h = sym (append-nil b.began)
broadcast_rounds-began helper period (r ∷ rs) b d (h, hs) =
    let next = broadcast_round helper period r b in
    let waits : next.now ≡ b.now + period = ground (arith) in
    broadcast_rounds-began helper period rs next (ground (arith, waits)) hs
    ∙ rw waits (append_assoc b.began (b.now ∷ []) (every period (b.now + period) rs))

first_rounds :
    (helper : InteractiveSsdp) (period : ℕ) (r0 r1 : Round) (sent : Sent)
    → 0 < period
    → r0.lasts + r1.lasts ≤ period
    → let b0 : Broadcaster = record { now = 0; deadline = 0; sent = sent; began = [] } in
      let b2 = broadcast_round helper period r1 (broadcast_round helper period r0 b0) in
      (b2.now ≡ period) × (b2.deadline ≡ period + period) × (b2.began ≡ 0 ∷ r0.lasts ∷ [])
unfolding broadcast_round
first_rounds helper period r0 r1 sent pos short = (ground arith, ground arith, ground arith)

-- With a positive period, for first two rounds that together take at most a period and later ones that each take
-- less than a period: the task makes every round, whatever the earlier ones returned. The first two begin without a
-- wait between them, since the interval's first tick is due at once; under these conditions the third begins a
-- period after the task's start, and each later one a period after the one before.
pub broadcast_task_schedule :
    (helper : InteractiveSsdp) (period : ℕ) (r0 r1 : Round) (rs : List Round) (sent : Sent)
    → 0 < period
    → r0.lasts + r1.lasts ≤ period
    → All (λ r. r.lasts < period) rs
    → (b : Broadcaster) × (broadcast_task helper period (r0 ∷ r1 ∷ rs) sent ≡ some b)
      × (b.began ≡ 0 ∷ r0.lasts ∷ every period period rs)
      × (b.sent ≡ announced helper (r0 ∷ r1 ∷ rs) sent)
unfolding broadcast_task broadcast_rounds
broadcast_task_schedule helper period r0 r1 rs sent pos short h =
    let b0 : Broadcaster = record { now = 0; deadline = 0; sent = sent; began = [] } in
    let b2 = broadcast_round helper period r1 (broadcast_round helper period r0 b0) in
    let (now2, deadline2, began2) = first_rounds helper period r0 r1 sent pos short in
    (
      broadcast_rounds helper period (r0 ∷ r1 ∷ rs) b0,
      ground arith,
      broadcast_rounds-began helper period rs b2 (omega (arith, now2, deadline2)) h
          ∙ rw (began2, now2) refl,
      broadcast_rounds-sent helper period (r0 ∷ r1 ∷ rs) b0,
    )
