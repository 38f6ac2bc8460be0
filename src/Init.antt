-- ===== src/Init.antt =====
-- apps/init/src/main.rs: the init process, which launches and supervises the services and keeps
-- the registry of their names.
pub mod Registry
pub mod ControlPlane
pub mod Services
pub mod BootGraph
pub mod Launch
pub mod Supervisor
pub mod Start
mod Tests
