-- ===== src/Ulib.antt =====
-- apps/ulib/src/lib.rs: the system calls and the control-plane calls that the apps use.
pub mod World
pub mod Ipc
pub mod Calls
pub mod Control
