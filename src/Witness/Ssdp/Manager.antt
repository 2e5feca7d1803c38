-- ===== src/Witness/Ssdp/Manager.antt =====
-- ssdp/broadcast.rs and ssdp/mod.rs at a concrete device.
use dlna_proxy.Common.{
  ◌++◌, ◌+◌, ◌*◌, ◌^◌, ◌≤◌, ◌<◌, Bool, true, false, none, some, List, [], ◌∷◌, ◌⊎◌, ◌≡◌, refl,
  arith,
}
use dlna_proxy.Text.{codes}
use dlna_proxy.Ssdp.Utils.{World}
use dlna_proxy.Ssdp.Listener.{recv_error}
use dlna_proxy.Ssdp.Broadcast.{Round, Broadcaster, broadcast_task}
use dlna_proxy.Ssdp.Broadcast.Pace.{NotBefore, Within, broadcast_task_pace}
use dlna_proxy.Ssdp.Manager.Freshness.{main_task-fresh}
use dlna_proxy.Ssdp.Manager.{new, created}
use dlna_proxy.Common.{ℕ, length}
use dlna_proxy.Ssdp.Broadcast.Schedule.{announced, broadcast_task_schedule}
use dlna_proxy.Ssdp.Sockets.{Call, create, broadcast, linux, macos, broke, ssdp_sockets}
use dlna_proxy.Ssdp.Sockets.Order.{
  Works, FirstFailure, expected_calls, expected_end, ssdp_sockets_outcome,
}
use dlna_proxy.Ssdp.Manager.{cache_max_age}
use dlna_proxy.Ssdp.Manager.Lifetime.{cache_max_age_range}
use dlna_proxy.Ssdp.Broadcast.{on_unix, terminated, exits, waits_forever, shutdown_handler}
use dlna_proxy.Ssdp.Broadcast.Farewell.{Catches, IsFarewell, shutdown_handler_exits}
use dlna_proxy.Ssdp.Manager.{SsdpManager, main_task}
use dlna_proxy.Ssdp.Utils.{Sent}
use dlna_proxy.Ssdp.Manager.Start.{Announces, main_task-announced}
use dlna_proxy.Witness.Ssdp.{url, up, down, helper, parser, slots}

abbrev round : World → Round
round w = record { world = w; lasts = 1 }

broadcast_task_schedule_example :
    (b : Broadcaster) × (broadcast_task helper 895 (round down ∷ round up ∷ round up ∷ []) []
      ≡ some b)
    × (b.began ≡ 0 ∷ 1 ∷ 895 ∷ [])
    × (b.sent ≡ announced helper (round down ∷ round up ∷ round up ∷ []) [])
broadcast_task_schedule_example =
    broadcast_task_schedule helper 895 (round down) (round up) (round up ∷ []) [] (omega arith)
      (omega arith) (omega arith, tt)

-- the second socket cannot be made
abbrev one_socket : Call → Bool
one_socket (create broadcast) = false
one_socket _ = true

ssdp_sockets_outcome_example :
    (Works one_socket (expected_calls macos (some (codes "en0")))
      × (ssdp_sockets macos one_socket (some (codes "en0"))
          ≡ expected_end macos (some (codes "en0")) (expected_calls macos (some (codes "en0")))))
    ⊎ ((f : FirstFailure one_socket (expected_calls macos (some (codes "en0")))) × (ssdp_sockets
            macos one_socket
            (some (codes "en0"))
          ≡ broke f.call f.before))
ssdp_sockets_outcome_example = ssdp_sockets_outcome macos one_socket (some (codes "en0"))

cache_max_age_range_example :
    ((2 ^ 63 + 5 < 2 ^ 63)
      × (20 ≤ cache_max_age (2 ^ 63 + 5))
      × (2 ^ 63 + 5 < cache_max_age (2 ^ 63 + 5))
      × ((2 ^ 63 + 5 < 20) ⊎ (cache_max_age (2 ^ 63 + 5) ≡ 2 * (2 ^ 63 + 5))))
    ⊎ ((2 ^ 63 ≤ 2 ^ 63 + 5) × (cache_max_age (2 ^ 63 + 5) < 2 ^ 63 + 5))
cache_max_age_range_example = cache_max_age_range (2 ^ 63 + 5) (omega arith)

shutdown_handler_exits_example :
    (Catches (on_unix true terminated)
      × (sent' : Sent) × (shutdown_handler (on_unix true terminated) true down helper []
          ≡ exits 0 sent')
      × IsFarewell down helper [] sent')
    ⊎ ((¬ Catches (on_unix true terminated))
        × (shutdown_handler (on_unix true terminated) true down helper [] ≡ waits_forever))
shutdown_handler_exits_example =
    shutdown_handler_exits down helper [] (on_unix true terminated) true

abbrev manager : SsdpManager
manager = record { broadcast_period = 895; sockets = []; interactive_ssdp = helper }

main_task-announced_example :
    (b : Broadcaster) × (greeting : Sent) × (later : Sent) × ((main_task
        (parser slots)
        manager
        true
        down
        (round down ∷ round up ∷ [])
        (recv_error ∷ [])).broadcasting
      ≡ some b)
    × (b.sent ≡ greeting ++ later)
    × Announces helper (round down ∷ round up ∷ []) later
    × (((true ≡ true) × (greeting ≡ [])) ⊎ ((true ≡ false) × IsFarewell down helper [] greeting))
main_task-announced_example =
    main_task-announced (parser slots) manager true down (round down ∷ round up ∷ [])
      (recv_error ∷ []) (omega arith)

abbrev fresh_manager : SsdpManager
fresh_manager = record {
  broadcast_period = 895;
  sockets = expected_calls linux none;
  interactive_ssdp = helper;
}

makes_manager : new linux (λ t. true) (λ c. true) url 895 (some 2) none ≡ created fresh_manager
unfolding new cache_max_age ssdp_sockets
makes_manager = refl

-- a fetch that takes ten minutes
abbrev slow : Round
slow = record { world = down; lasts = 600 }

main_task-fresh_example :
    (b : Broadcaster) × (starts : List ℕ) × ((main_task
        (parser slots)
        fresh_manager
        true
        up
        (slow ∷ round up ∷ slow ∷ [])
        []).broadcasting
      ≡ some b)
    × (b.began ≡ 0 ∷ starts)
    × Within 1790 0 starts
main_task-fresh_example =
    main_task-fresh linux (λ t. true) (λ c. true) url 895 (some 2) none fresh_manager (parser slots)
      true up slow (round up ∷ slow ∷ []) [] makes_manager (omega arith) (omega arith)
      (omega arith, (omega arith, (omega arith, tt)))

broadcast_task_pace_example :
    (b : Broadcaster) × (starts : List ℕ) × (broadcast_task helper 60
        (slow ∷ round up ∷ round up ∷ [])
        []
      ≡ some b)
    × (b.began ≡ 0 ∷ starts)
    × (length starts ≡ 2)
    × NotBefore 60 0 starts
    × (b.deadline ≡ 3 * 60)
broadcast_task_pace_example =
    broadcast_task_pace helper 60 slow (round up ∷ round up ∷ []) [] (omega arith)
