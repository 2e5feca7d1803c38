-- ===== src/Proxy/Listen/Clients.antt =====
-- tcp_proxy.rs, `listen_loop`: the accept loop with its clients and what the handler tasks do for them, as a step
-- relation that refines the one of the parent module.
use dlna_proxy.Common.{ℕ, ◌+◌, ◌-◌, ◌<◌, Bool, true, false, List, [], ◌∷◌, ◌++◌, ◌≡◌}
use dlna_proxy.Text.{Str}
use dlna_proxy.Net.{Conn}
use dlna_proxy.Net.Addr.{SocketAddr}
use dlna_proxy.Proxy.{handle_conn}
use dlna_proxy.Proxy.Listen.{max_concurrent_connections}

-- what `accept` returns, with what this client will send
pub record Client : Type 0 where
  pub peer_addr : SocketAddr
  pub proxied_stream : Conn

-- what a handler task owns besides its permit: the client, and the connection to the origin that was made for it
pub record Handler : Type 0 where
  pub client : Client
  pub to_stream : Conn

-- a handler task that has ended, with the two directions as `handle_conn` left them
pub record Closed : Type 0 where
  pub handler : Handler
  pub after : Conn × Conn

pub data Stage : Type 0 where
  accepting stopped : Stage
  acquiring connecting : Client → Stage

-- The lists have their newest elements in front.
pub record Server : Type 0 where
  pub stage : Stage
  pub free : ℕ
  pub closed : Bool
  pub handlers : List Handler
  pub accepted : List Client
  pub turned_away : List Client
  pub served : List Closed

abbrev pub idle : Server
idle = record {
  stage = accepting;
  free = max_concurrent_connections;
  closed = false;
  handlers = [];
  accepted = [];
  turned_away = [];
  served = [];
}

module _ (origin_url_base proxy_url_base : Str) where
  abbrev pub close : Handler → Closed
  close h = record {
    handler = h;
    after = handle_conn origin_url_base proxy_url_base h.client.proxied_stream h.to_stream;
  }

  pub data Serve (s : Server) : Server → Type 0 where
    accept_client :
        (c : Client)
        → s.stage ≡ accepting
        → Serve s (record s { stage = acquiring c; accepted = c ∷ s.accepted })
    accept_error : s.stage ≡ accepting → Serve s s
    acquire :
        (c : Client)
        → s.stage ≡ acquiring c
        → s.closed ≡ false
        → 0 < s.free
        → Serve s (record s { stage = connecting c; free = s.free - 1 })
    semaphore_closed :
        (c : Client)
        → s.stage ≡ acquiring c
        → s.closed ≡ true
        → Serve s (record s { stage = stopped; turned_away = c ∷ s.turned_away })
    connect_origin :
        (c : Client) (to_stream : Conn)
        → s.stage ≡ connecting c
        → Serve s (record s {
          stage = accepting;
          handlers = record { client = c; to_stream = to_stream } ∷ s.handlers;
        })
    connect_error :
        (c : Client)
        → s.stage ≡ connecting c
        → Serve s
            (record s { stage = accepting; free = s.free + 1; turned_away = c ∷ s.turned_away })
    connect_timeout :
        (c : Client)
        → s.stage ≡ connecting c
        → Serve s
            (record s { stage = accepting; free = s.free + 1; turned_away = c ∷ s.turned_away })
    handler_done :
        (before : List Handler) (h : Handler) (later : List Handler)
        → s.handlers ≡ before ++ h ∷ later
        → Serve s (record s {
          free = s.free + 1;
          handlers = before ++ later;
          served = close h ∷ s.served;
        })

  pub data Serving : Server → Type 0 where
    start : Serving idle
    next : {s t : Server} → Serving s → Serve s t → Serving t
