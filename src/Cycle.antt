-- ===== src/Cycle.antt =====
-- The durable stages of a cognition cycle (src/cognition/stores/cognition.py): every operation
-- joins its caller's transaction.
pub mod Collaborators
pub mod Stages
pub mod Finish
pub mod Invoke
pub mod Attempts
pub mod Result
pub mod Apply
pub mod Claim
pub mod Chosen
pub mod Due
pub mod Single
pub mod Outcome
pub mod Recorded
pub mod Decided
pub mod Applied
pub mod Rejected
