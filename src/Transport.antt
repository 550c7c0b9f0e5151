-- ===== src/Transport.antt =====
-- The transports (engine/transport): the frames of the TCP stream, and the health of the
-- connections of a bond.
pub mod Codec
pub mod Health
