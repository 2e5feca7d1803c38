-- ===== src/Witness.antt =====
-- The theorems at concrete inputs: responses of a media server, a description, a configuration.
mod Proxy
mod Client
mod Ssdp
mod Task
mod Tests
mod Program
