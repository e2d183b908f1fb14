-- ===== src/Policy.antt =====
-- The pure policies of src/cognition/policy.
pub mod Cognition
pub mod Governance
