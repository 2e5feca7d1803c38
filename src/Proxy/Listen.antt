-- ===== src/Proxy/Listen.antt =====
-- tcp_proxy.rs, `listen_loop`: the accept loop, its semaphore and the handler tasks, as a step relation
-- whose environment decides what arrives, what the origin answers and when a handler ends.
pub mod Permits
pub mod Clients
pub mod Counts
pub mod Accounts
use dlna_proxy.Common.{ℕ, ◌+◌, ◌-◌, ◌<◌, Bool, true, false, ◌≡◌}

abbrev pub max_concurrent_connections : ℕ
max_concurrent_connections = 100

-- Where the loop stands: at `accept`, at `acquire_owned` with a client, at `connect` with a client and a
-- permit, or behind the loop.
pub data Phase : Type 0 where
  accepting acquiring connecting stopped : Phase

-- `free` permits are left in the semaphore; `active` handler tasks run, each with a permit.
pub record Listener : Type 0 where
  pub phase : Phase
  pub free : ℕ
  pub closed : Bool
  pub active : ℕ

abbrev pub listening : Listener
listening = record {
  phase = accepting;
  free = max_concurrent_connections;
  closed = false;
  active = 0;
}

pub data Step (s : Listener) : Listener → Type 0 where
  accept_client : s.phase ≡ accepting → Step s (record s { phase = acquiring })
  accept_error : s.phase ≡ accepting → Step s s
  acquire :
      s.phase ≡ acquiring
      → s.closed ≡ false
      → 0 < s.free
      → Step s (record s { phase = connecting; free = s.free - 1 })
  semaphore_closed : s.phase ≡ acquiring → s.closed ≡ true → Step s (record s { phase = stopped })
  connect_origin :
      s.phase ≡ connecting → Step s (record s { phase = accepting; active = s.active + 1 })
  connect_error : s.phase ≡ connecting → Step s (record s { phase = accepting; free = s.free + 1 })
  connect_timeout :
      s.phase ≡ connecting → Step s (record s { phase = accepting; free = s.free + 1 })
  handler_done : 0 < s.active → Step s (record s { free = s.free + 1; active = s.active - 1 })

pub data Reach : Listener → Type 0 where
  start : Reach listening
  next : {s t : Listener} → Reach s → Step s t → Reach t
