-- ===== src/Job.antt =====
-- internal/job: the sidecar that runs beside a job.
pub mod Watch
