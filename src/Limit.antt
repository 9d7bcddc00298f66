-- ===== src/Limit.antt =====
-- limit/limit.go: who may enter, and how much of a resource may be held.
pub mod Budget
pub mod Concurrency
pub mod PerKey
pub mod Rate
pub mod All
mod Tests
