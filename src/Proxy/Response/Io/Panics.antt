-- ===== src/Proxy/Response/Io/Panics.antt =====
-- tcp_proxy.rs: what the origin has to send to make the response task panic.
use dlna_proxy.Common.{Bool, true, false, ◌≡◌}
use dlna_proxy.Text.{Bytes}
use dlna_proxy.Net.After.{After}
use dlna_proxy.Proxy.Chunk.Panics.{HugeBehind}
use dlna_proxy.Proxy.Header.{Head, no_head}
use dlna_proxy.Proxy.Response.{passes}
use dlna_proxy.Proxy.Response.Parts.{HeadTo, BodyTo}
use dlna_proxy.Proxy.Chunk.Copied.{Copied}

-- The stream consists of whole responses up to one whose headers announce chunks and a type that is rewritten; and
-- behind these headers, or behind whole chunks, stands a chunk's size line that announces more than isize::MAX bytes.
pub data HugeChunk : Bytes → Type 0 where
  this_response :
      {s body : Bytes} (h : Head)
      → HeadTo no_head s h body
      → h.is_chunked ≡ true
      → passes h ≡ false
      → HugeBehind body
      → HugeChunk s
  later_response :
      {s body rest : Bytes} (h : Head)
      → HeadTo no_head s h body
      → BodyTo h body rest
      → HugeChunk rest
      → HugeChunk s

abbrev LeavesBody : {A : Type 0} → Head → Bytes → A → Bytes → Type 0
LeavesBody h s a rest = BodyTo h s rest

abbrev LeavesRound : Head → Bytes → Bool → Bytes → Type 0
LeavesRound h s true rest = BodyTo h s rest
LeavesRound h s false rest = Unit
