-- ===== src/Node.antt =====
-- The node (node/src): the parts of its data plane and of its effects on the host that decide.
pub mod Gso
pub mod Routes
pub mod Indices
pub mod Apply
pub mod Exit
pub mod Nat
