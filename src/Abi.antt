-- ===== src/Abi.antt =====
-- kernel/mene-abi: the numbers that the kernel and the apps share.
pub mod Blk
pub mod Fs
pub mod Control
pub mod Sysno
pub mod Handle
pub mod Regs
