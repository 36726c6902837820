-- ===== src/Migrate.antt =====
-- tools/migrate_identity_state.py: two reports prove a mapping of identities, and a state document
-- is carried along it.
pub mod Inventory
pub mod Pairing
pub mod State
