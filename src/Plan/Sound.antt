-- ===== src/Plan/Sound.antt =====
-- The candidates of a plan hold the key of every record that matches, and no key twice.
pub mod Leaf
pub mod Conjunction
pub mod Tree
pub mod Once
