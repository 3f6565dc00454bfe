-- ===== src/Acl.antt =====
-- chirp/src/chirp_acl.c: the access control lists of a chirp server.
pub mod Flags
pub mod Entries
pub mod Check
pub mod Set
pub mod Reserve
