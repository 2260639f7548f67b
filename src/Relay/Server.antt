-- ===== src/Relay/Server.antt =====
-- The cached address of the container: udp_proxy.rs, server_addr.
use codery.Relay.{Relay}
