-- ===== src/Samples.antt =====
-- Tests on small documents, and the theorems at inputs that meet their hypotheses.
mod Migration
mod Inventories
mod Lanes
mod Merging
mod Projection
mod Quarantines
mod Reconciled
mod Reports
mod Streaming
mod Trends
mod Artifacts
mod Coverages
