-- ===== src/Q.antt =====
-- Package q: the matchers that select records.
pub mod Compare
pub mod Field
pub mod Tree
pub mod Build
pub mod Explain
