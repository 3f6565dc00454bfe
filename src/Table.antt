-- ===== src/Table.antt =====
-- The two chained tables of dttools: dttools/src/hash_table.c and dttools/src/itable.c, over shared
-- chains and buckets.
pub mod Chain
pub mod Buckets
pub mod Hash
pub mod Int
