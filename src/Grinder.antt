-- ===== src/Grinder.antt =====
-- mig/analyser/grinder.py: the report on a series of MIG runs.
pub mod Counts
pub mod Rates
pub mod Queue
pub mod Processing
pub mod Load
pub mod Inputs
pub mod Report
pub mod Main
pub mod Page
