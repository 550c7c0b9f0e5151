-- ===== src/Sdk.antt =====
-- The SDK (sdk/rust/src): the types that the server and the node share.
pub mod Prefix
pub mod Enroll
