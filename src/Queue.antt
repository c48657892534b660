-- ===== src/Queue.antt =====
-- The package internal/queue: what the schedulers' listings and options mean.
pub mod Job
pub mod States
pub mod Listing
pub mod Walltime
pub mod Select
pub mod Durations
