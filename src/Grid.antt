-- ===== src/Grid.antt =====
-- The load policy and the workflows of the grid manager (cmd/grid-manager).
pub mod Thresholds
pub mod Policy
pub mod Merging
pub mod Workflow
pub mod Probes
pub mod MergeChecks
