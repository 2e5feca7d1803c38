-- ===== src/Ssdp/Listener/Replies.antt =====
-- ssdp/listener.rs: what the listen task sends over a whole run.
use dlna_proxy.Common.{
  true, Option, List, [], ◌∷◌, ◌++◌, append_assoc, append-nil, ◌⊎◌, inl, inr, ◌≡◌, refl, sym, ◌∙◌,
  ap, Bool-cases,
}
use dlna_proxy.Text.{Bytes, Str, codes}
use dlna_proxy.Text.Utf8.{as_bytes}
use dlna_proxy.Net.Addr.{SocketAddr}
use dlna_proxy.Ssdp.Packet.{SsdpPacket, ok, fmt}
use dlna_proxy.Ssdp.Utils.{
  World, InteractiveSsdp, Sent, EndpointInfo, Result, success, failure, fetch_endpoint_info,
  send_to, send_made, send_ok,
}
use dlna_proxy.Ssdp.Listener.{
  Request, HeaderMap, Parsed, parsed, refused, out_of_bounds, get, should_respond, Received,
  recv_error, datagram, Listening, listening, crashed, buffer, parse_ssdp, answer, handle_received,
  listen_task,
}
use dlna_proxy.Ssdp.Listener.Answers.{IsSearch, should_respond_iff}

abbrev pub sent_by : Listening → Sent
sent_by (listening s) = s
sent_by (crashed s) = s

-- a run of an operation that sends at most one datagram, made by `make`
abbrev pub OneAtMost : World → (EndpointInfo → SsdpPacket) → SocketAddr → Sent → Sent → Type 0
OneAtMost w make dest sent sent' =
    (sent' ≡ sent)
    ⊎ ((info : EndpointInfo) × (sent' ≡ sent ++ (dest, as_bytes (fmt w.now (make info))) ∷ []))

pub send_made-OneAtMost :
    (w : World) (r : Result EndpointInfo) (make : EndpointInfo → SsdpPacket) (dest : SocketAddr)
    (sent : Sent)
    → OneAtMost w make dest sent (send_made w r make dest sent).1
unfolding send_made send_to
send_made-OneAtMost w (failure e) make dest sent = inl refl
send_made-OneAtMost w (success info) make dest sent =
    elim (Bool-cases (w.udp_takes dest (as_bytes (fmt w.now (make info))))) [
      | inl takes ↦ inr (info, rw takes)
      | inr refuses ↦ inl (rw refuses)
    ]

module _ (parse : Bytes → Option Request) (helper : InteractiveSsdp) where
  -- `bs` is an answer to a datagram: the datagram is a search for one of the three targets, and `bs` the text of
  -- an OK message with the configured URL and lifetime.
  pub record IsReply (bytes : Bytes) (w : World) (bs : Bytes) : Type 0 where
    pub method : Str
    pub headers : HeaderMap
    pub is_request : parse_ssdp parse (buffer bytes) ≡ parsed method headers
    pub is_search : IsSearch method (get (codes "ST") headers)
    pub info : EndpointInfo
    pub is_ok :
        bs
        ≡ as_bytes (
            fmt w.now (
              ok helper.remote_desc_url info.server info.unique_device_name info.device_type
                helper.cache_max_age))

  -- The datagrams of `sent` answer some of those received, in their order, each one once and to its sender.
  pub data Replies : List Received → Sent → Type 0 where
    no_more : Replies [] []
    passed_over :
        {rs : List Received} {sent : Sent} (r : Received) → Replies rs sent → Replies (r ∷ rs) sent
    replied :
        {rs : List Received} {sent : Sent} {bytes bs : Bytes} {w : World} (src : SocketAddr)
        → IsReply bytes w bs
        → Replies rs sent
        → Replies (datagram bytes src w ∷ rs) ((src, bs) ∷ sent)

  none_later : (rs : List Received) → Replies rs []
  none_later [] = no_more
  none_later (r ∷ rs) = passed_over r (none_later rs)

  -- What one round appends to what was sent.
  abbrev Round : Received → Sent → Sent → Type 0
  Round recv_error sent sent' = sent' ≡ sent
  Round (datagram bytes src w) sent sent' =
      (sent' ≡ sent) ⊎ ((bs : Bytes) × IsReply bytes w bs × (sent' ≡ sent ++ (src, bs) ∷ []))

  reply-Round :
      (bytes : Bytes) (src : SocketAddr) (w : World) (sent : Sent) (method : Str) (m : HeaderMap)
      → parse_ssdp parse (buffer bytes) ≡ parsed method m
      → should_respond method (get (codes "ST") m) ≡ true
      → Round (datagram bytes src w) sent (send_ok w helper src sent).1
  unfolding send_ok
  reply-Round bytes src w sent method m is asked =
      elim (send_made-OneAtMost w (fetch_endpoint_info w helper) _ src sent) [
        | inl same ↦ inl same
        | inr (info, one) ↦ inr (
          _,
          record {
            method = method;
            headers = m;
            is_request = is;
            is_search = (should_respond_iff method (get (codes "ST") m)).0 asked;
            info = info;
            is_ok = refl;
          },
          one,
        )
      ]

  answer-Round :
      (bytes : Bytes) (src : SocketAddr) (w : World) (sent : Sent) (p : Parsed)
      → parse_ssdp parse (buffer bytes) ≡ p
      → Round (datagram bytes src w) sent (sent_by (answer parse helper w src sent p))
  unfolding answer
  answer-Round bytes src w sent refused is = inl refl
  answer-Round bytes src w sent out_of_bounds is = inl refl
  answer-Round bytes src w sent (parsed method m) is =
      elim (Bool-cases (should_respond method (get (codes "ST") m))) [
        | inl asked ↦ rw asked (reply-Round bytes src w sent method m is asked)
        | inr not_asked ↦ inl (rw not_asked)
      ]

  handle_received-Round :
      (sent : Sent) (r : Received) → Round r sent (sent_by (handle_received parse helper sent r))
  unfolding handle_received
  handle_received-Round sent recv_error = refl
  handle_received-Round sent (datagram bytes src w) =
      answer-Round bytes src w sent (parse_ssdp parse (buffer bytes)) refl

  -- the datagrams sent later
  record More (rs : List Received) (sent sent' : Sent) : Type 0 where
    more : Sent
    replies : Replies rs more
    grown : sent' ≡ sent ++ more

  Round-More :
      (r : Received) (rs : List Received) (sent sent' later : Sent)
      → Round r sent sent'
      → More rs sent' later
      → More (r ∷ rs) sent later
  Round-More recv_error rs sent sent' later same h = record {
    more = h.more;
    replies = passed_over recv_error h.replies;
    grown = rw same at h.grown;
  }
  Round-More (datagram bytes src w) rs sent sent' later (inl same) h = record {
    more = h.more;
    replies = passed_over (datagram bytes src w) h.replies;
    grown = rw same at h.grown;
  }
  Round-More (datagram bytes src w) rs sent sent' later (inr (bs, reply, one)) h = record {
    more = (src, bs) ∷ h.more;
    replies = replied src reply h.replies;
    grown = h.grown ∙ ap (λ s. s ++ h.more) one ∙ append_assoc sent ((src, bs) ∷ []) h.more;
  }

  after_round :
      (r : Received) (rs : List Received) (sent : Sent) (l : Listening)
      → handle_received parse helper sent r ≡ l
      → Round r sent (sent_by l)
      → ((sent' : Sent) → More rs sent' (sent_by (listen_task parse helper sent' rs)))
      → More (r ∷ rs) sent (sent_by (listen_task parse helper sent (r ∷ rs)))
  unfolding listen_task
  after_round r rs sent (listening sent') is round ih =
      rw (sent_by, listen_task, is) (Round-More r rs sent sent' _ round (ih sent'))
  after_round r rs sent (crashed sent') is round ih =
      rw (sent_by, listen_task, is)
        (Round-More r rs sent sent' sent' round
          (record { more = []; replies = none_later rs; grown = sym (append-nil sent') }))

  listen_task-More :
      (sent : Sent) (rs : List Received) → More rs sent (sent_by (listen_task parse helper sent rs))
  unfolding listen_task
  listen_task-More sent [] = record { more = []; replies = no_more; grown = sym (append-nil sent) }
  listen_task-More sent (r ∷ rs) =
      after_round r rs sent (handle_received parse helper sent r) refl
        (handle_received-Round sent r) (λ sent'. listen_task-More sent' rs)

  -- Whatever arrives, and whatever the parser makes of it: each datagram that the listen task sends, over its
  -- whole run and also when it ends with a panic, is the OK message with the configured URL and lifetime, and
  -- goes to the sender of a received datagram of its own, a search for one of the three targets. So there are no
  -- more answers than searches, they are in the order of the searches, and nothing else is sent.
  pub listen_task-Replies :
      (rs : List Received) → Replies rs (sent_by (listen_task parse helper [] rs))
  listen_task-Replies rs = let h = listen_task-More [] rs in rw h.grown h.replies
