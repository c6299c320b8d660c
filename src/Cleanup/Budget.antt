-- ===== src/Cleanup/Budget.antt =====
-- The ceilings of lib/storage/cleanupBudget.ts hold: no clean-up prepares more statements and makes more calls
-- of R2 than the ceiling that it runs under.
pub mod Room
pub mod Jobs
pub mod Scheduled
