-- ===== src/Witness/Tests.antt =====
-- The source's own tests, on the model, and an operation of slices that they use.
mod Chunk
mod Header
mod Body
mod Replace
mod Packet
mod Listener
use dlna_proxy.Common.{Bool, ◌||◌, [], ◌∷◌}
use dlna_proxy.Text.{Str, equal}

unfoldable ends_with : Str → Str → Bool
unfolding equal
ends_with [] pat = equal [] pat
ends_with (c ∷ s) pat = equal (c ∷ s) pat || ends_with s pat
