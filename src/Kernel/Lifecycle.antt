-- ===== src/Kernel/Lifecycle.antt =====
-- kernel/mene-kernel/src/process/lifecycle.rs: process numbers and the states of processes. The
-- statics `NEXT_PID`, `LIFECYCLE_TABLE` and `SERVICE_REGISTRY` are the fields of one record; each
-- function locks what it uses throughout.
pub mod PerProcess
use mene_os.Base.{ℕ, ◌+◌, ◌%◌, ◌^◌, Option, none, some, List, [], Result}
use mene_os.Base.Int.{ℤ}
use mene_os.Base.BTreeMap.{Map, get, insert, remove, modify}
use mene_os.Kernel.Registry
use mene_os.Kernel.Registry.{RegistryEntry, RegistryError}

pub data ProcessState : Type 0 where
  created ready running exited faulted : ProcessState

pub record ProcessLifecycle : Type 0 where
  pub pid : ℕ
  pub state : ProcessState
  pub exit_code : Option ℤ

-- ProcessLifecycle::new
abbrev pub new : ℕ → ProcessLifecycle
new pid = record { pid = pid; state = created; exit_code = none }

abbrev pub transition_to : ProcessState → ProcessLifecycle → ProcessLifecycle
transition_to new_state l = record l { state = new_state }

abbrev pub mark_exited : ℤ → ProcessLifecycle → ProcessLifecycle
mark_exited code l = record l { state = exited; exit_code = some code }

abbrev pub mark_faulted : ProcessLifecycle → ProcessLifecycle
mark_faulted l = record l { state = faulted }

pub record Supervisor : Type 0 where
  pub next_pid : ℕ
  pub lifecycles : Map ProcessLifecycle
  pub registry : List RegistryEntry

-- The statics as they are initialised.
abbrev pub initial : Supervisor
initial = record { next_pid = 1; lifecycles = []; registry = Registry.new }

-- `fetch_add` on a 64-bit counter wraps around.
unfoldable pub allocate_pid : Supervisor → ℕ × Supervisor
allocate_pid s = (s.next_pid, record s { next_pid = (s.next_pid + 1) % 2 ^ 64 })

unfoldable pub register_process : ℕ → Supervisor → Supervisor
register_process pid s = record s { lifecycles = insert pid (new pid) s.lifecycles }

unfoldable pub transition_state : ℕ → ProcessState → Supervisor → Supervisor
transition_state pid new_state s = record s {
  lifecycles = modify pid (transition_to new_state) s.lifecycles;
}

unfoldable pub mark_process_exited : ℕ → ℤ → Supervisor → Supervisor
mark_process_exited pid code s = record s {
  lifecycles = modify pid (mark_exited code) s.lifecycles;
}

unfoldable pub mark_process_faulted : ℕ → Supervisor → Supervisor
mark_process_faulted pid s = record s { lifecycles = modify pid mark_faulted s.lifecycles }

abbrev pub state_of : Option ProcessLifecycle → Option ProcessState
state_of none = none
state_of (some l) = some l.state

unfoldable pub get_state : ℕ → Supervisor → Option ProcessState
get_state pid s = state_of (get pid s.lifecycles)

unfoldable pub cleanup_process : ℕ → Supervisor → Supervisor
cleanup_process pid s = record s { lifecycles = remove pid s.lifecycles }

abbrev with_registry :
    Supervisor
    → Result RegistryError Unit × List RegistryEntry
    → Result RegistryError Unit × Supervisor
with_registry s (r, es) = (r, record s { registry = es })

pub register_service : List ℕ → ℕ → ℕ → Supervisor → Result RegistryError Unit × Supervisor
register_service name pid handle s = with_registry s (Registry.register name pid handle s.registry)

pub lookup_service : List ℕ → Supervisor → Result RegistryError ℕ
lookup_service name s = Registry.lookup name s.registry

pub unregister_service : List ℕ → Supervisor → Result RegistryError Unit × Supervisor
unregister_service name s = with_registry s (Registry.unregister name s.registry)
