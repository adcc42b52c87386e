-- ===== src/Jobs/Scheduler/Retry.antt =====

