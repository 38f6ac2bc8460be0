-- ===== src/Kernel/Syscall/System/Spawn.antt =====
-- Which processes there are after a spawn.
use mene_os.Base.{
  ℕ, ◌+◌, ◌%◌, ◌^◌, ◌≡◌, refl, ◌∙◌, ap, List, [], none, some, arith, ◌==◌, if◌then◌else◌,
}
use mene_os.Base.BTreeMap.{get, get-insert, get-modify, map_option}
use mene_os.Ipc.Endpoint.{new_endpoint}
use mene_os.Ipc.Manager.{find_endpoint, init_process, Endpoints}
use mene_os.Kernel.Process.{ProcessInfo}
use mene_os.Kernel.Lifecycle.{
  Supervisor, ProcessState, created, ready, get_state, state_of, register_process, transition_state,
  allocate_pid, transition_to, new,
}
use mene_os.Kernel.Memory.{Machine}
use mene_os.Kernel.Task.{get_preloaded_elf, spawn_task_from_elf}
use mene_os.Kernel.Syscall.System.{
  System, Loader, spawn_app, first_cspace, run_task, spawn_cached, begin_system,
}

find_endpoint-init :
    (pid j : ℕ) (eps : Endpoints)
    → find_endpoint j (init_process pid eps)
      ≡ (if pid == j then some new_endpoint else find_endpoint j eps)
unfolding init_process get
find_endpoint-init pid j none = get-insert pid j new_endpoint []
find_endpoint-init pid j (some m) = get-insert pid j new_endpoint m

get_state-register :
    (pid j : ℕ) (s : Supervisor)
    → get_state j (register_process pid s) ≡ (if pid == j then some created else get_state j s)
unfolding get_state register_process
get_state-register pid j s = ap state_of (get-insert pid j (new pid) s.lifecycles) ∙ ground arith

get_state-transition :
    (pid j : ℕ) (to : ProcessState) (s : Supervisor)
    → get_state j (transition_state pid to (register_process pid s))
      ≡ (if pid == j then some to else get_state j s)
unfolding get_state register_process transition_state
get_state-transition pid j to s =
    ap state_of (
      get-modify pid j (transition_to to) (register_process pid s).lifecycles
      ∙ ap (λ x. if pid == j then map_option (transition_to to) x else x)
          (get-insert pid j (new pid) s.lifecycles))
    ∙ ground arith

next_pid-register : (pid : ℕ) (s : Supervisor) → (register_process pid s).next_pid ≡ s.next_pid
unfolding register_process
next_pid-register pid s = refl

-- The entry of a new process.
abbrev pub new_process : {m : Machine} → List ℕ → System m → ProcessInfo
new_process {m} path s = record {
  app_path = path;
  aspace = s.next_arc;
  cspace = first_cspace m s.devices path (s.next_arc + 1) s.kernel.process_table;
  local_endpoint = s.next_arc + 1;
}

module _ (m : Machine) (l : Loader) (path : List ℕ) (s : System m) (j : ℕ) where
  abbrev pid : ℕ
  pid = s.kernel.supervisor.next_pid

  -- If the program is in the cache and can be loaded, `spawn_app` returns the next process number;
  -- that process is then ready, has an empty mailbox and an entry with the path, the capabilities of
  -- a new process and an address space and an endpoint of its own. For every other process the
  -- three tables answer as before.
  pub spawn_app_lem :
      (file : List ℕ) (task : ℕ × ℕ × m.AddrSpace)
      → get_preloaded_elf path s.assets ≡ some file
      → spawn_task_from_elf m l.parse path file ≡ some task
      → (t : System m) × (spawn_app m l path s ≡ some (pid, t))
        × (get_state j t.kernel.supervisor
            ≡ (if pid == j then some ready else get_state j s.kernel.supervisor))
        × (find_endpoint j t.kernel.endpoints
            ≡ (if pid == j then some new_endpoint else find_endpoint j s.kernel.endpoints))
        × (get j t.kernel.process_table
            ≡ (if pid == j then some (new_process path s) else get j s.kernel.process_table))
  unfolding spawn_app allocate_pid get_state
  spawn_app_lem file task cache loads =
      let (n, s1) = begin_system m s in
      let run : spawn_app m l path s ≡ run_task m path n s1 (some task) =
        ap (spawn_cached m l path (n, s1)) cache ∙ ap (run_task m path n s1) loads in
      (
        _,
        run,
        get_state-transition pid j ready (allocate_pid s.kernel.supervisor).1,
        find_endpoint-init pid j s.kernel.endpoints,
        get-insert pid j (new_process path s) s.kernel.process_table,
      )

  -- If the program is not in the cache, `spawn_app` returns 0 and no process is in the process table
  -- that was not before; but the next process number is used up, and it has a state and a mailbox.
  pub spawn_app_leaks :
      get_preloaded_elf path s.assets ≡ none
      → (t : System m) × (spawn_app m l path s ≡ some (0, t))
        × (t.kernel.process_table ≡ s.kernel.process_table)
        × (t.kernel.supervisor.next_pid ≡ (pid + 1) % 2 ^ 64)
        × (get_state j t.kernel.supervisor
            ≡ (if pid == j then some created else get_state j s.kernel.supervisor))
        × (find_endpoint j t.kernel.endpoints
            ≡ (if pid == j then some new_endpoint else find_endpoint j s.kernel.endpoints))
  unfolding spawn_app allocate_pid get_state
  spawn_app_leaks missing = (
    _,
    ap (spawn_cached m l path (begin_system m s)) missing,
    refl,
    next_pid-register pid (allocate_pid s.kernel.supervisor).1,
    get_state-register pid j (allocate_pid s.kernel.supervisor).1,
    find_endpoint-init pid j s.kernel.endpoints,
  )
