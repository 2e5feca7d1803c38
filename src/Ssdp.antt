-- ===== src/Ssdp.antt =====
-- src/ssdp: announcing the remote server on the local network.
pub mod Packet
pub mod Utils
pub mod Listener
pub mod Broadcast
pub mod Sockets
pub mod Manager
