-- ===== src/Jobs.antt =====
-- backend/src/jobs: scheduled jobs and their runs.
pub mod Scheduler
pub mod Monitoring
