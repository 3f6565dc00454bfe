-- ===== src/Channel/Free.antt =====
-- `pfs_channel_free` of parrot/src/pfs_channel.c: the merges in an ordered ring, and the whole call.
pub mod Merge
pub mod Glue
pub mod Call
