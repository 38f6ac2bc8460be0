-- ===== src/Ipc.antt =====
-- kernel/mene-ipc: endpoints, capabilities and the manager of the processes' endpoints.
pub mod Endpoint
pub mod Manager
pub mod Mailboxes
pub mod Delivery
mod Tests
