-- ===== src/Fs.antt =====
-- apps/fs/src/main.rs: the file service. Its disk is a cursor over the sectors of the block service.
pub mod BlkCall
pub mod Disk
pub mod Requests
pub mod FatFs
pub mod Service
pub mod Tests
