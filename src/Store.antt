-- ===== src/Store.antt =====
-- The durable state: errors, rows and the database (src/cognition/db/models), and the writes that
-- every store shares (src/cognition/stores/evidence.py).
pub mod Result
pub mod Rows
pub mod Db
pub mod Identity
pub mod Redaction
