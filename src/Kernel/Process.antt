-- ===== src/Kernel/Process.antt =====
-- kernel/mene-kernel/src/process/mod.rs: `ProcessInfo`. A shared endpoint or address space is its
-- number.
use mene_os.Base.{ℕ, List}
use mene_os.Base.BTreeMap.{Map}
use mene_os.Ipc.Endpoint.{Capability}

pub record ProcessInfo : Type 0 where
  pub app_path : List ℕ
  pub aspace : ℕ
  pub cspace : Map Capability
  pub local_endpoint : ℕ
