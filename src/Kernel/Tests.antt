-- ===== src/Kernel/Tests.antt =====
-- Runs of the kernel's services at concrete inputs.
pub mod Boot
mod Calls
use mene_os.Base.{
  ℕ, zero, suc, subst, sym, ◌^◌, get_elem?, ◌-◌, ◌<◌, ◌≡◌, ◌↔◌, ◌⊎◌, refl, true, List, [], ◌∷◌,
  ◌++◌, none, some, arith, length, take, ◌==◌, if◌then◌else◌, ok, AreBytes,
}
use mene_os.Base.Int.{pos}
use mene_os.Base.BTreeMap.{get}
use mene_os.Abi.Handle.{to_usize}
use mene_os.Kernel.Registry
use mene_os.Kernel.Registry.Refines.{
  Op, registers, looks_up, unregisters, step, spec_step, replies, no_names, registry_refines_map,
}
use mene_os.Kernel.Scheduler.{
  Graph, ServiceNode, ready_from, deps_ready, new_node, pending, running, mark_starting, with_state,
  get_ready_services,
}
use mene_os.Kernel.Scheduler.Ready.{IsGraph, AllRunning, contains, IsReady, get_ready_services_iff}
use mene_os.Kernel.Scheduler.Shape
use mene_os.Kernel.Scheduler.Shape.{apply-IsGraph, depends}
use mene_os.Kernel.Scheduler.Order.{Reach, here, next, start, IsActive, IsOrdered, Reach-IsOrdered}
use mene_os.Kernel.Lifecycle.{initial, get_state}
use mene_os.Kernel.Lifecycle.PerProcess.{
  Event, faults, cleans, exits, life, spec_run, life-run, allocate_pids, IsDistinct,
  allocate_pids-IsDistinct,
}
use mene_os.Kernel.Lifecycle.PerProcess
use mene_os.Kernel.Protocol.{
  IpcHeader, IsHeader, from_bytes, to_bytes, from_bytes-to_bytes, to_bytes-from_bytes,
}
use mene_os.Ipc.Endpoint.{new_endpoint}
use mene_os.Ipc.Manager.{find_endpoint, send}
use mene_os.Kernel.Syscall.{Kernel, Iovec, exit, writev}
use mene_os.Kernel.Syscall.{pci_cfg_addr}
use mene_os.Kernel.Syscall.Pci.{pci_cfg_addr_injective, pci_cfg_addr_reaches}
use mene_os.Kernel.Syscall.Exit.{exit_forgets}
use mene_os.Kernel.Syscall.Writev.{IsVector, total_len, messages, serial_queue, writev_serial}
use mene_os.Kernel.Syscall.Capabilities.{kernel_recv, control_plane_inert}
use mene_os.Init.ControlPlane.{Plane, handle_control_plane_msg}

abbrev fs_name : List ℕ
fs_name = b'f' ∷ b's' ∷ []

abbrev registry_calls : List Op
registry_calls =
    registers fs_name 3 7
    ∷ looks_up fs_name
    ∷ registers fs_name 3 9
    ∷ registers [] 3 7
    ∷ looks_up fs_name
    ∷ unregisters fs_name
    ∷ looks_up fs_name
    ∷ []

registry_refines_map_example :
    replies step registry_calls Registry.new ≡ replies spec_step registry_calls no_names
registry_refines_map_example = registry_refines_map registry_calls

-- A driver that runs, and a service that needs it.
abbrev two_services : Graph
two_services =
    with_state running (new_node 0 fs_name) ∷ record (new_node 1 fs_name) { deps = 0 ∷ [] } ∷ []

two_services-IsGraph : IsGraph two_services
two_services-IsGraph = (refl, tt, (refl, (omega arith, tt), tt))

get_ready_services_iff_example :
    (contains 1 (get_ready_services two_services) ≡ true) ↔ IsReady two_services 1
get_ready_services_iff_example = get_ready_services_iff two_services 1 two_services-IsGraph

apply-IsGraph_example : IsGraph (Shape.apply (depends 0 1) two_services)
apply-IsGraph_example = apply-IsGraph (depends 0 1) two_services two_services-IsGraph

abbrev one_service : Graph
one_service = new_node 0 fs_name ∷ []

one_service-deps_run :
    (i : ℕ) (n : ServiceNode)
    → get_elem? one_service i ≡ some n
    → IsActive n.state
    → AllRunning one_service n.deps
one_service-deps_run zero n e a =
    let waits : pending ≡ n.state = ground (arith, e) in absurd (subst IsActive (sym waits) a)
one_service-deps_run (suc i) n e a = cc

one_service-IsOrdered : IsOrdered one_service
one_service-IsOrdered = record { shape = (refl, tt, tt); deps_run = one_service-deps_run }

one_service-Reach : Reach one_service (mark_starting 0 one_service)
unfolding get_ready_services ready_from deps_ready
one_service-Reach = next here (start 0 refl)

Reach-IsOrdered_example : IsOrdered (mark_starting 0 one_service)
Reach-IsOrdered_example = Reach-IsOrdered one_service-IsOrdered one_service-Reach

abbrev events : List Event
events =
    PerProcess.registers 1 ∷ PerProcess.registers 2 ∷ faults 2 ∷ exits 1 (pos 3) ∷ cleans 2 ∷ []

life-run_example : life 1 (PerProcess.run events initial) ≡ spec_run 1 events (life 1 initial)
life-run_example = life-run 1 events initial

abbrev header : IpcHeader
header = record { opcode = 513; flags = 1; payload_len = 70000 }

abbrev nine_bytes : List ℕ
nine_bytes = 1 ∷ 2 ∷ 3 ∷ 4 ∷ 5 ∷ 6 ∷ 7 ∷ 255 ∷ 9 ∷ []

-- Process 3 and the serial service, which is process 2, with an empty mailbox.
abbrev kernel : Kernel
kernel = record {
  supervisor = initial;
  endpoints = some ((2, new_endpoint) ∷ (3, new_endpoint) ∷ []);
  process_table =
      (3, record { app_path = fs_name; aspace = 0; cspace = []; local_endpoint = 0 }) ∷ [];
}

exit_forgets_example :
    (get_state 2 (exit 3 256 kernel).supervisor
      ≡ (if 3 == 2 then none else get_state 2 kernel.supervisor))
    × (find_endpoint 2 (exit 3 256 kernel).endpoints
        ≡ (if 3 == 2 then none else find_endpoint 2 kernel.endpoints))
    × (get 2 (exit 3 256 kernel).process_table
        ≡ (if 3 == 2 then none else get 2 kernel.process_table))
exit_forgets_example = exit_forgets 3 256 2 kernel

abbrev vector : List Iovec
vector =
    record { base = some fs_name; base_len = 2 }
    ∷ record { base = some []; base_len = 0 }
    ∷ record { base = some nine_bytes; base_len = 9 }
    ∷ []

vector-IsVector : IsVector vector
unfolding IsVector
vector-IsVector = ((fs_name, refl, refl), (([], refl, refl), ((nine_bytes, refl, refl), tt)))

vector-small : total_len vector < 2 ^ 64
unfolding total_len
vector-small = omega arith

abbrev plane : Plane
plane = record {
  registry = [];
  world = record {
    recvs = [];
    send_rets = [];
    spawn_rets = [];
    sent = [];
    spawned = [];
    spawned_elfs = [];
  };
}

-- A message with a capability waits for process 3.
abbrev sent_cap : Kernel
sent_cap = record kernel { endpoints = (send 2 3 nine_bytes 1 kernel.endpoints).1 }

control_plane_inert_example :
    let r = kernel_recv (λ e. 2 ^ 64 - 11) 3 nine_bytes 5 sent_cap in
    (r.recv_cap ≡ none)
    × ((handle_control_plane_msg r.from_pid (take 9 r.buf) r.recv_cap plane).1 ≡ plane)
control_plane_inert_example = control_plane_inert (λ e. 2 ^ 64 - 11) 3 nine_bytes 5 sent_cap 9 plane
