-- ===== src/Cleanup.antt =====
-- lib/cleanup.ts, lib/storage/cleanupBudget.ts and lib/storage/r2Errors.ts: what the schedule runs.
pub mod World
pub mod Triple
pub mod Share
pub mod Batches
pub mod Schedule
pub mod Budget
mod Tests
