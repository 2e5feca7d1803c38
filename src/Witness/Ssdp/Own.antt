-- ===== src/Witness/Ssdp/Own.antt =====
-- The listener with a notice among the datagrams, and a parser that reads the word in front of the first space.
use dlna_proxy.Common.{
  ℕ, Option, some, [], ◌∷◌, ◌++◌, ◌==◌, ◌≡◌, refl, ap, arith, All, if◌then◌else◌, false,
}
use dlna_proxy.Text.{Str, Bytes, codes}
use dlna_proxy.Text.Utf8.{as_bytes, encode_char}
use dlna_proxy.Ssdp.Packet.{alive, bye_bye, fmt}
use dlna_proxy.Ssdp.Listener.{Request, Received, recv_error, datagram, listen_task}
use dlna_proxy.Ssdp.Listener.Replies.{Replies, sent_by}
use dlna_proxy.Ssdp.Listener.Own.{
  IsCapital, ReadsMethod, IsNotice, nothing, notice, other, listen_task-others,
}
use dlna_proxy.Witness.Ssdp.{url, up, helper, player, slots}

abbrev first_word : Bytes → Bytes
first_word [] = []
first_word (b ∷ bs) = if b == b' ' then [] else b ∷ first_word bs

abbrev by_word : Bytes → Option Request
by_word bytes = some (record { method = some (first_word bytes); headers = slots })

first_word-append :
    (word rest : Bytes) → All IsCapital word → first_word (word ++ b' ' ∷ rest) ≡ word
first_word-append [] rest h = refl
first_word-append (c ∷ word) rest ((a, z), h) =
    let letter : (c == b' ') ≡ false = ground arith in
    rw letter (ap (◌∷◌ c) (first_word-append word rest h))

by_word-ReadsMethod : ReadsMethod by_word
by_word-ReadsMethod word rest r method h e m = cc (e, m, first_word-append word rest h)

abbrev own : Bytes
own =
    as_bytes (fmt (codes "now") (alive url (codes "server") (codes "uuid:1") (codes "media") 1790))

abbrev search : Received
search = datagram (codes "M-SEARCH * HTTP/1.1") player up

-- another device's announcement, with headers in an order of its own
abbrev foreign : Bytes
foreign = codes "NOTIFY * HTTP/1.1\r\nNTS: ssdp:alive\r\nHost: 239.255.255.250:1900\r\n\r\n"

listen_task-others_example :
    Replies by_word helper (recv_error ∷ search ∷ []) (
      sent_by (
        listen_task by_word helper []
          (recv_error ∷ datagram own player up ∷ search ∷ datagram foreign player up ∷ [])))
    × ((now url server udn device_type : Str) (age : ℕ)
        → IsNotice (as_bytes (fmt now (alive url server udn device_type age)))
          × IsNotice (as_bytes (fmt now (bye_bye udn device_type))))
unfolding as_bytes fmt encode_char
listen_task-others_example =
    listen_task-others by_word helper by_word-ReadsMethod
      (recv_error ∷ datagram own player up ∷ search ∷ datagram foreign player up ∷ [])
      (recv_error ∷ search ∷ [])
      (other recv_error
        (notice player up (_, refl) (other search (notice player up (_, refl) nothing))))
