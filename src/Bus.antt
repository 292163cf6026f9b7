-- ===== src/Bus.antt =====
-- src/eventful/bus.py. `Registry` has the listener tables and their operations, `Emit` the dispatch.
pub mod Registry
pub mod Emit
pub mod Held
pub mod Consistent
pub mod Claims
pub mod Steps
pub mod Keeps
pub mod Once
pub mod Snapshot
pub mod Modes
pub mod Tests
