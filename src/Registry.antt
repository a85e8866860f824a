-- ===== src/Registry.antt =====
-- The topic registry (packages/topic-registry/src/topic_registry): the comparison of the registry's
-- content with the database, and the synchronisation of the database with it.
pub mod Values
pub mod Entries
pub mod Entities
pub mod Topics
pub mod Compare
pub mod Sync
pub mod Loader
