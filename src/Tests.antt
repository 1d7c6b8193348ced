-- ===== src/Tests.antt =====
-- Small concrete inputs, and the properties applied to them.
mod Toy
mod Matchers
mod Queries
mod Records
mod Transactions
mod Columns
mod Batches
mod Outboxes
mod Statements
mod Keys
