-- ===== src/Kernel.antt =====
-- kernel/mene-kernel: the services that the kernel itself keeps.
pub mod Registry
pub mod Scheduler
pub mod Lifecycle
pub mod Process
pub mod Device
pub mod Memory
pub mod Task
pub mod Protocol
pub mod Syscall
pub mod Tests
