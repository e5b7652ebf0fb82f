-- ===== src/Reducer.antt =====
-- The telemetry reducer: src/core/reducer.
pub mod Types
pub mod Effects
pub mod Guids
pub mod Totals
pub mod Finalize
pub mod Terminal
pub mod Destroyed
pub mod Stats
pub mod Created
pub mod Events
pub mod Frame
pub mod Counted
pub mod Once
pub mod Finalized
pub mod Ends
pub mod Waiting
pub mod Waits
pub mod Visits
pub mod Version
pub mod Runs
pub mod Confirm
pub mod Counts
pub mod Stale
mod Examples
