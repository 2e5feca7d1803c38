-- ===== src/Witness/Program/Announce.antt =====
-- The running program with a proxy, at concrete settings.
use dlna_proxy.Common.{true, none, some, List, [], ◌∷◌, ◌≡◌, refl, arith}
use dlna_proxy.Text.{codes}
use dlna_proxy.Text.Number.{to_decimal}
use dlna_proxy.Net.Addr.{show_ip}
use dlna_proxy.Proxy
use dlna_proxy.Ssdp.Utils.{World}
use dlna_proxy.Ssdp.Listener.{recv_error}
use dlna_proxy.Ssdp.Listener.Replies.{sent_by}
use dlna_proxy.Ssdp.Broadcast.{Broadcaster, Round, on_unix, terminated, shutdown_handler}
use dlna_proxy.Ssdp.Sockets.{linux}
use dlna_proxy.Ssdp.Sockets.Order.{expected_calls}
use dlna_proxy.Ssdp.Manager.{main_task}
use dlna_proxy.Ssdp.Manager.Notices.{AreNotices, AreAnswers, sent_in_all}
use dlna_proxy.Main.{Launched, running, main}
use dlna_proxy.Main.Announce.{main-AreNotices}
use dlna_proxy.Witness.Program.{
  platform, outside, args, server_url, front, server, with_host, front_url, config, configured,
  bound, resolved,
}

abbrev described : World
described = record {
  http_get = λ u. some (record { server = none; text = some (codes "<root/>") });
  from_xml = λ s. some (record {
    device = record { device_type = codes "media"; unique_device_name = codes "uuid:1" };
  });
  now = codes "Tue, 1 Jul 2025 10:00:00 +0000";
  udp_takes = λ a b. true;
}

abbrev two_rounds : List Round
two_rounds = record { world = described; lasts = 1 } ∷ record { world = described; lasts = 2 } ∷ []

main-AreNotices_example :
    (l : Launched) × (proxy : Proxy.Listening) × (b : Broadcaster) × (main platform outside
        (args none (some server_url) (some front))
      ≡ running l)
    × (l.tcp_proxy ≡ some proxy)
    × (proxy.listener ≡ front)
    × (proxy.origin ≡ server)
    × ((main_task
          (λ bytes. none)
          l.ssdp
          l.wait_mode
          described
          two_rounds
          (recv_error ∷ [])).broadcasting
        ≡ some b)
    × AreNotices (codes "10.0.0.1") (
        sent_in_all b.sent (
          shutdown_handler (on_unix true terminated) true described l.ssdp.interactive_ssdp b.sent))
    × AreAnswers (codes "10.0.0.1") (
        sent_by
          (main_task
            (λ bytes. none)
            l.ssdp
            l.wait_mode
            described
            two_rounds
            (recv_error ∷ [])).listener)
unfolding show_ip to_decimal
main-AreNotices_example =
    main-AreNotices platform outside (args none (some server_url) (some front))
      (config (some front)) (expected_calls linux none) (configured (some front)) refl refl bound
      (λ bytes. none) described two_rounds (recv_error ∷ []) (on_unix true terminated) true
      described front server with_host front_url (omega arith) refl resolved refl refl refl
