-- ===== src/Kernel/Device/Capabilities.antt =====
-- Which capabilities a process starts with.
use mene_os.Base.{Option, none, some}
use mene_os.Ipc.Endpoint.{Capability, endpoint}
use mene_os.Kernel.Process.{ProcessInfo}

-- The endpoint of the process, or what was there.
abbrev pub endpoint_or : Option ProcessInfo → Option Capability → Option Capability
endpoint_or none old = old
endpoint_or (some p) old = some (endpoint p.local_endpoint)
