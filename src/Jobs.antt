-- ===== src/Jobs.antt =====
-- The job system: apps/api/src/jobs/jobs.service.ts (cancel, replay, list), and with it
-- packages/queue and apps/worker-cpu/src/cancellation-gate.ts, which read the same rows.
pub mod Model
pub mod Dto
pub mod Cancel
pub mod Gate
pub mod Listing
pub mod Dispatch
mod Tests
