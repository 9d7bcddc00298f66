-- ===== src/Flow.antt =====
-- The package flow: flow.go (a flow's close state machine and its last-seen word) and table.go.
pub mod Seen
pub mod Life
pub mod Alone
pub mod Table
mod Tests
