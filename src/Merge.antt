-- ===== src/Merge.antt =====
-- tools/merge_shards.py: the reports of all shards of a run are checked against each other and merged.
pub mod Shared
pub mod Sources
pub mod Statuses
pub mod Topology
pub mod Inventory
pub mod Results
pub mod Ownership
