-- ===== src/Protocol.antt =====
-- The versioned contracts between the program and the executive model: references, proposed
-- operations, decisions, results and wakes (src/cognition/protocols).
pub mod Ref
pub mod Operations
pub mod Social
pub mod Decision
pub mod Model
pub mod Contract
