-- ===== src/Kernel/Syscall/Dispatch/Runs.antt =====
-- kernel/mene-task/src/task.rs, the loop of a task: the processes enter the kernel one after the other,
-- in any order.
use mene_os.Base.{
  ℕ, ◌≡◌, ◌≢◌, ◌≤◌, ◌<◌, refl, ◌∙◌, ◌||◌, List, Option, none, some, Result, ok, err, arith, length,
  ◌==◌, Bool-cases, inl, inr,
}
use mene_os.Base.Utf8.{is_utf8}
use mene_os.Base.BTreeMap.{get}
use mene_os.Abi.Regs.{Regs}
use mene_os.Abi.Sysno
use mene_os.Abi.Sysno.{MeneSysno, try_from}
use mene_os.Ipc.Manager.{AxError}
use mene_os.Kernel.Device.{boot_fs}
use mene_os.Kernel.Memory.{Machine, Space, do_dma_alloc}
use mene_os.Kernel.Task.{get_preloaded_elf, spawn_task_from_elf}
use mene_os.Kernel.Syscall.System
use mene_os.Kernel.Syscall.System.{
  System, Loader, run_task, spawn_cached, begin_system, spawn_app, spawn_app_from_elf, returned,
  spawn_bytes, runs, allocated,
}
use mene_os.Kernel.Syscall.Dispatch.{
  Memory, behind, load, Env, Caller, LinuxCall, mmap, answer_spawn, answer_dma, answer_read,
  answer_cfg, serve_mene, serve_linux, dispatch, handle_syscall,
}
use mene_os.Kernel.Syscall.Dispatch.Isolation.{
  Keeps, system_after, handle_syscall-Keeps, page_to_denied,
}

-- `ReturnReason`: why a process left user space. A fault and any other reason end the task.
pub data ReturnReason : Type 0 where
  syscall : Regs → Memory → ReturnReason
  interrupt page_fault unexpected : ReturnReason

module _ (m : Machine) (l : Loader) (env : Env) where
  -- A round of the loop of a task.
  abbrev pub round : Caller m → ReturnReason → System m → System m
  round c (syscall r mem) s = system_after m s (handle_syscall m l env c r mem s)
  round c interrupt s = s
  round c page_fault s = s
  round c unexpected s = s

  -- Rounds of the tasks that are not the process 3 and do not have the address space `n`, each with
  -- its address space as the system holds it.
  pub data Runs (n : ℕ) : System m → System m → Type 0 where
    stop : (s : System m) → Runs n s s
    next :
        {s t : System m} (c : Caller m) (reason : ReturnReason)
        → c.pid ≢ 3
        → n ≢ c.aspace
        → get c.aspace s.spaces ≡ some c.space
        → Runs n (round c reason s) t
        → Runs n s t

module _ (m : Machine) (l : Loader) (env : Env) (s : System m) where
  -- No call gives a number of an address space back.
  Grows : Memory → Option (Result AxError ℕ × System m) → Type 0
  Grows mem x = s.next_arc ≤ (system_after m s (answer_spawn m l env mem x)).next_arc

  run_task-Grows :
      (mem : Memory) (path : List ℕ) (pid : ℕ) (task : Option (ℕ × ℕ × m.AddrSpace))
      → Grows mem (returned m (run_task m path pid (begin_system m s).1 task))
  unfolding Grows
  run_task-Grows mem path pid none = omega arith
  run_task-Grows mem path pid (some (entry, sp, a)) = omega arith

  spawn-Grows : (mem : Memory) (path : List ℕ) → Grows mem (System.spawn m l path s)
  unfolding Grows System.spawn spawn_app
  spawn-Grows mem path = elim (Bool-cases (is_utf8 path)) [
    | inr odd ↦ rw odd (omega arith)
    | inl text ↦ rw text (cached (get_preloaded_elf path s.assets))
  ]
    where
      cached :
          (file : Option (List ℕ))
          → Grows mem (returned m (spawn_cached m l path (begin_system m s) file))
      cached none = omega arith
      cached (some file) =
          run_task-Grows mem path (begin_system m s).0 (spawn_task_from_elf m l.parse path file)

  spawn_elf-Grows :
      (mem : Memory) (pid : ℕ) (path elf : Option (List ℕ))
      → Grows mem (System.spawn_elf m l pid path elf s)
  unfolding Grows System.spawn_elf spawn_app_from_elf
  spawn_elf-Grows mem pid path elf =
      elim (Bool-cases (runs m boot_fs (get pid s.kernel.process_table))) [
        | inr elsewhere ↦ rw elsewhere (omega arith)
        | inl in_fs ↦ rw in_fs (given path elf)
      ]
    where
      given : (p e : Option (List ℕ)) → Grows mem (spawn_bytes m l p e s)
      given none e = omega arith
      given (some p) none = omega arith
      given (some p) (some e) = elim (Bool-cases (length p == 0 || length e == 0)) [
        | inl empty ↦ rw empty (omega arith)
        | inr full ↦ elim (Bool-cases (is_utf8 p)) [
          | inr odd ↦ rw (full, odd) (omega arith)
          | inl text ↦
              rw (full, text)
                (run_task-Grows mem p (begin_system m s).0 (spawn_task_from_elf m l.parse p e))
        ]
      ]

  serve_mene-Grows :
      (call : MeneSysno) (c : Caller m) (r : Regs) (mem : Memory)
      → c.pid ≢ 3
      → s.next_arc ≤ (system_after m s (serve_mene m l env call c r mem s)).next_arc
  unfolding serve_mene System.mmap_anon System.map_device System.dma_alloc System.dma_dealloc
  serve_mene-Grows Sysno.spawn c r mem not_vmm =
      unfold Grows in spawn-Grows mem (load mem r.arg0 r.arg1)
  serve_mene-Grows Sysno.spawn_elf c r mem not_vmm =
      unfold Grows in
      spawn_elf-Grows mem c.pid (behind r.arg0 (load mem r.arg0 r.arg1))
        (behind r.arg2 (load mem r.arg2 r.arg3))
  serve_mene-Grows Sysno.vmm_map_page_to c r mem not_vmm =
      rw (page_to_denied m c r.arg0 r.arg1 r.arg2 s not_vmm) (omega arith)
  serve_mene-Grows Sysno.dma_alloc c r mem not_vmm =
      elim (Bool-cases ((r.arg1 == 0) || r.arg0 == 0)) [
        | inl refused ↦ rw refused (omega arith)
        | inr tried ↦ rw tried (result (do_dma_alloc m r.arg0 (c.space, s.pages)))
      ]
    where
      result :
          (x : Option (ℕ × ℕ) × Space m)
          → s.next_arc
            ≤ (system_after m s (answer_dma m l env r.arg1 mem (allocated m c.aspace s x))).next_arc
      result (none, sp) = omega arith
      result (some (vaddr, paddr), sp) = omega arith
  serve_mene-Grows Sysno.dma_dealloc c r mem not_vmm = elim (Bool-cases (r.arg2 == 0)) [
    | inl nothing ↦ rw nothing (omega arith)
    | inr some_pages ↦ rw some_pages (omega arith)
  ]
  serve_mene-Grows Sysno.read_file c r mem not_vmm =
      read (System.read_file m l c.pid (load mem r.arg0 r.arg1) r.arg3)
    where
      read :
          (x : Result AxError (List ℕ))
          → s.next_arc ≤ (system_after m s (answer_read m l env r.arg2 mem s x)).next_arc
      read (ok bytes) = omega arith
      read (err e) = omega arith
  serve_mene-Grows Sysno.get_boot_cfg c r mem not_vmm =
      cfg (System.get_boot_cfg m (behind r.arg0 (load mem r.arg0 r.arg1)) s)
    where
      cfg :
          (x : Result AxError (ℕ × List ℕ))
          → s.next_arc ≤ (system_after m s (answer_cfg m l env r.arg0 mem s x)).next_arc
      cfg (ok (len, buf)) = omega arith
      cfg (err e) = omega arith
  serve_mene-Grows _ c r mem not_vmm = omega arith

  serve_linux-Grows :
      (call : LinuxCall) (c : Caller m) (r : Regs) (mem : Memory)
      → s.next_arc ≤ (system_after m s (serve_linux m l env call c r mem s)).next_arc
  unfolding serve_linux System.mmap_anon
  serve_linux-Grows mmap c r mem = omega arith
  serve_linux-Grows _ c r mem = omega arith

  handle_syscall-Grows :
      (c : Caller m) (r : Regs) (mem : Memory)
      → c.pid ≢ 3
      → s.next_arc ≤ (system_after m s (handle_syscall m l env c r mem s)).next_arc
  unfolding handle_syscall
  handle_syscall-Grows c r mem not_vmm = by_number (try_from r.sysno)
    where
      by_number :
          (x : Option MeneSysno)
          → s.next_arc ≤ (system_after m s (dispatch m l env x c r mem s)).next_arc
      by_number (some call) = serve_mene-Grows call c r mem not_vmm
      by_number none = serve_linux-Grows (env.linux r.sysno) c r mem

  round-Grows :
      (c : Caller m) (reason : ReturnReason)
      → c.pid ≢ 3
      → s.next_arc ≤ (round m l env c reason s).next_arc
  round-Grows c (syscall r mem) not_vmm = handle_syscall-Grows c r mem not_vmm
  round-Grows c interrupt not_vmm = omega arith
  round-Grows c page_fault not_vmm = omega arith
  round-Grows c unexpected not_vmm = omega arith

module _ (m : Machine) (l : Loader) (env : Env) where
  round-Keeps :
      (n : ℕ) (c : Caller m) (reason : ReturnReason) (s : System m)
      → c.pid ≢ 3
      → n ≢ c.aspace
      → n < s.next_arc
      → Keeps m n s (round m l env c reason s)
  round-Keeps n c (syscall r mem) s not_vmm others fresh =
      handle_syscall-Keeps m l env n c others r mem s not_vmm fresh
  round-Keeps n c interrupt s not_vmm others fresh = refl
  round-Keeps n c page_fault s not_vmm others fresh = refl
  round-Keeps n c unexpected s not_vmm others fresh = refl

  -- However long other processes than the process 3 run, in whatever order they enter the kernel, with
  -- whatever registers and memory, and whatever programs they spawn: an address space that is given out
  -- already and that none of them has stays what it was.
  pub Runs-Keeps : (n : ℕ) (s t : System m) → n < s.next_arc → Runs m l env n s t → Keeps m n s t
  Runs-Keeps n _ _ fresh (stop s) = refl
  Runs-Keeps n s t fresh (next c reason not_vmm others held more) =
      let grown = round-Grows m l env s c reason not_vmm in
      Runs-Keeps n (round m l env c reason s) t (omega (arith, fresh, grown)) more
      ∙ round-Keeps n c reason s not_vmm others fresh
