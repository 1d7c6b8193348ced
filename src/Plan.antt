-- ===== src/Plan.antt =====
-- select_index.go: planning a query on the external index.
pub mod Leaves
pub mod Conj
pub mod Select
pub mod Candidates
pub mod Documents
pub mod Coverage
pub mod Sound
pub mod Equivalence
