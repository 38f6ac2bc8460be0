-- ===== src/VirtioBlk.antt =====
-- apps/virtio_blk/src/main.rs: the block service, over a real or a mock disk.
pub mod Backend
pub mod Hal
pub mod Service
pub mod Start
mod Tests
