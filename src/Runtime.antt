-- ===== src/Runtime.antt =====
-- Runtime errors: how the code generator has them raised, and how the host reads them back.
pub mod Codes
pub mod Raise
pub mod Resolve
pub mod Link
pub mod Reports
pub mod Counts
mod Tests
