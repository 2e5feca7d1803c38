-- ===== src/Ssdp/Broadcast/Pace.antt =====
-- ssdp/broadcast.rs: how far apart the announcements are, however long each takes.
use dlna_proxy.Common.{
  ℕ, suc, ◌+◌, ◌*◌, ◌≤◌, ◌<◌, some, List, [], ◌∷◌, ◌++◌, append_assoc, append-nil, ◌≡◌, refl, arith,
  ◌∙◌, sym, ap, ◌⊎◌, length, All,
}
use dlna_proxy.Ssdp.Broadcast.{
  Round, Broadcaster, broadcast_round, broadcast_rounds, broadcast_task,
}
use dlna_proxy.Ssdp.Utils.{InteractiveSsdp, Sent}

-- The times are not before `low`, `low + period`, and so on.
abbrev pub NotBefore : ℕ → ℕ → List ℕ → Type 0
NotBefore period low [] = Unit
NotBefore period low (t ∷ ts) = (low ≤ t) × NotBefore period (low + period) ts

-- Each time is behind the one before it, by less than `gap`.
abbrev pub Within : ℕ → ℕ → List ℕ → Type 0
Within gap t [] = Unit
Within gap t (u ∷ us) = (t ≤ u) × (u < t + gap) × Within gap u us

module _ (helper : InteractiveSsdp) (period : ℕ) where
  -- One round: what the tick makes of the clock.
  round_clock :
      (r : Round) (b : Broadcaster)
      → let next = broadcast_round helper period r b in
        (b.deadline ≤ next.now)
        × (b.now + r.lasts ≤ next.now)
        × ((next.now ≡ b.deadline) ⊎ (next.now ≡ b.now + r.lasts))
        × (next.deadline ≡ b.deadline + period)
        × (next.began ≡ b.began ++ b.now ∷ [])
  unfolding broadcast_round
  round_clock r b = ground arith

  -- what is known of a run that began at `began`, the last of them before the state's clock
  record Paced (rs : List Round) (b end : Broadcaster) (low : ℕ) : Type 0 where
    starts : List ℕ
    all : end.began ≡ b.began ++ starts
    number : length starts ≡ length rs
    deadline : end.deadline ≡ b.deadline + length rs * period
    late_enough : NotBefore period low starts

  rounds-Paced :
      (rs : List Round) (b : Broadcaster) (low : ℕ)
      → low ≤ b.now
      → low + period ≤ b.deadline
      → Paced rs b (broadcast_rounds helper period rs b) low
  unfolding broadcast_rounds
  rounds-Paced [] b low h d = record {
    starts = [];
    all = sym (append-nil b.began);
    number = refl;
    deadline = omega arith;
    late_enough = tt;
  }
  rounds-Paced (r ∷ rs) b low h d =
      let next = broadcast_round helper period r b in
      let (tick_due, busy, which, later, began) = round_clock r b in
      let p = rounds-Paced rs next (low + period) (omega arith) (omega arith) in
      record {
        starts = b.now ∷ p.starts;
        all = p.all ∙ ap (λ x. x ++ p.starts) began ∙ append_assoc b.began (b.now ∷ []) p.starts;
        number = ap suc p.number;
        deadline = p.deadline ∙ (ground (arith, later));
        late_enough = (h, p.late_enough);
      }

  -- While no round takes longer than the period, the starts are less than any longer time apart.
  rounds-Within :
      (gap : ℕ) (rs : List Round) (r : Round) (b : Broadcaster)
      → period < gap
      → b.deadline ≤ b.now + period
      → All (λ r. r.lasts ≤ period) (r ∷ rs)
      → (starts : List ℕ) × ((broadcast_rounds helper period (r ∷ rs) b).began
          ≡ b.began ++ b.now ∷ starts)
        × Within gap b.now starts
  unfolding broadcast_rounds
  rounds-Within gap [] r b long d h =
      let (tick_due, busy, which, later, began) = round_clock r b in ([], began, tt)
  rounds-Within gap (r' ∷ rs) r b long d (short, h) =
      let next = broadcast_round helper period r b in
      let (tick_due, busy, which, later, began) = round_clock r b in
      let (starts, all, within) = rounds-Within gap rs r' next long (omega arith) h in
      (
        next.now ∷ starts,
        all
            ∙ ap (λ x. x ++ next.now ∷ starts) began
            ∙ append_assoc b.began (b.now ∷ []) (next.now ∷ starts),
        (omega arith, ground arith, within),
      )

-- However long the rounds take, and whatever they return: the task makes every round, the first at once; the next
-- begin not before the start of the task, a period after it, two periods after it, and so on, and the deadline
-- is the number of rounds times the period.
pub broadcast_task_pace :
    (helper : InteractiveSsdp) (period : ℕ) (r : Round) (rs : List Round) (sent : Sent)
    → 0 < period
    → (b : Broadcaster) × (starts : List ℕ) × (broadcast_task helper period (r ∷ rs) sent ≡ some b)
      × (b.began ≡ 0 ∷ starts)
      × (length starts ≡ length rs)
      × NotBefore period 0 starts
      × (b.deadline ≡ length (r ∷ rs) * period)
unfolding broadcast_task broadcast_rounds
broadcast_task_pace helper period r rs sent pos =
    let b0 : Broadcaster = record { now = 0; deadline = 0; sent = sent; began = [] } in
    let b1 = broadcast_round helper period r b0 in
    let (tick_due, busy, which, later, began) = round_clock helper period r b0 in
    let p = rounds-Paced helper period rs b1 0 (omega arith) (omega arith) in
    (
      broadcast_rounds helper period (r ∷ rs) b0,
      p.starts,
      ground arith,
      p.all ∙ ap (λ x. x ++ p.starts) began,
      p.number,
      p.late_enough,
      ground (arith, p.deadline, later),
    )

-- The same of the task.
pub broadcast_task-Within :
    (helper : InteractiveSsdp) (period gap : ℕ) (r : Round) (rs : List Round) (sent : Sent)
    → 0 < period
    → period < gap
    → All (λ r. r.lasts ≤ period) (r ∷ rs)
    → (b : Broadcaster) × (starts : List ℕ) × (broadcast_task helper period (r ∷ rs) sent ≡ some b)
      × (b.began ≡ 0 ∷ starts)
      × Within gap 0 starts
unfolding broadcast_task
broadcast_task-Within helper period gap r rs sent pos long short =
    let b0 : Broadcaster = record { now = 0; deadline = 0; sent = sent; began = [] } in
    let (starts, began, within) =
      rounds-Within helper period gap rs r b0 long (omega arith) short in
    (broadcast_rounds helper period (r ∷ rs) b0, starts, ground arith, began, within)
