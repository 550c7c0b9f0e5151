-- ===== src/Relay.antt =====
-- The relay server (relay-server/src): its wire protocol and its routing hub.
pub mod Proto
pub mod Hub
