-- ===== src/Channel/Alloc.antt =====
-- `pfs_channel_alloc` of parrot/src/pfs_channel.c, one round of it and the whole call.
pub mod Round
pub mod Call
pub mod Total
