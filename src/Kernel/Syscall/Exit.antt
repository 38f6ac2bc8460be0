-- ===== src/Kernel/Syscall/Exit.antt =====
-- What is left of a process after its exit.
use mene_os.Base.{ℕ, ◌≡◌, none, some, arith, ◌==◌, if◌then◌else◌}
use mene_os.Base.BTreeMap.{get, modify, get-remove, get-modify}
use mene_os.Ipc.Manager
use mene_os.Ipc.Manager.{find_endpoint, Endpoints}
use mene_os.Kernel.Lifecycle
use mene_os.Kernel.Lifecycle.{get_state, mark_process_exited, mark_exited, state_of}
use mene_os.Kernel.Syscall.{Kernel, exit, as_i32}

cleanup-find :
    (pid j : ℕ) (eps : Endpoints)
    → find_endpoint j (Manager.cleanup_process pid eps)
      ≡ (if pid == j then none else find_endpoint j eps)
unfolding Manager.cleanup_process
cleanup-find pid j none = ground arith
cleanup-find pid j (some m) = get-remove pid j m

-- After the exit of `pid` with any code, the supervisor has no state for it, it has no endpoint and
-- no entry in the process table; for every other process the three tables answer as before.
pub exit_forgets :
    (pid arg0 j : ℕ) (k : Kernel)
    → (get_state j (exit pid arg0 k).supervisor
        ≡ (if pid == j then none else get_state j k.supervisor))
      × (find_endpoint j (exit pid arg0 k).endpoints
          ≡ (if pid == j then none else find_endpoint j k.endpoints))
      × (get j (exit pid arg0 k).process_table ≡ (if pid == j then none else get j k.process_table))
unfolding exit get_state mark_process_exited Lifecycle.cleanup_process
exit_forgets pid arg0 j k =
    let gone = get-remove pid j (modify pid (mark_exited (as_i32 arg0)) k.supervisor.lifecycles) in
    let kept = get-modify pid j (mark_exited (as_i32 arg0)) k.supervisor.lifecycles in
    (ground (arith, gone, kept), cleanup-find pid j k.endpoints, get-remove pid j k.process_table)
