-- ===== src/Retry.antt =====
-- The retry of a failed execution: apps/task-worker/services/retry-classifier.ts,
-- retry-manager.ts, schedule-retry.ts and retry-scheduler.ts.
pub mod Classifier
pub mod Manager
pub mod Schedule
pub mod Scanner
pub mod Scans
pub mod Drained
mod Examples
mod ScannerExamples
