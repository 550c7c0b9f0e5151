-- ===== src/Net.antt =====
-- The decision logic of engine/net: the choice of a path, the class of a NAT, the messages that
-- find a path.
pub mod Conhash
pub mod Disco
pub mod Netcheck
pub mod Path
