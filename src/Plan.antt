-- ===== src/Plan.antt =====
-- lib/plan.ts, lib/retention.ts and lib/limits.ts: the plans, how long a share is kept, and the
-- account's paid period.
pub mod Retention
pub mod Limits
pub mod Account
mod Tests
