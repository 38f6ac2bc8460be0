-- ===== src/Kernel/Syscall/Dispatch/Isolation.antt =====
-- Which address spaces a system call can change.
use mene_os.Base.{
  ℕ, ◌≡◌, ◌≢◌, ◌<◌, refl, ◌∙◌, Bool, false, ◌||◌, List, Option, none, some, Result, ok, err, arith,
  length, ◌==◌, Bool-cases, inl, inr,
}
use mene_os.Base.Utf8.{is_utf8}
use mene_os.Base.BTreeMap.{get, insert, get-insert}
use mene_os.Abi.Regs.{Regs}
use mene_os.Abi.Sysno
use mene_os.Abi.Sysno.{MeneSysno, try_from}
use mene_os.Ipc.Manager.{AxError}
use mene_os.Kernel.Device.{boot_fs}
use mene_os.Kernel.Memory.{Machine, Space, do_mmap, do_map_device, do_dma_alloc, do_dma_dealloc}
use mene_os.Kernel.Task.{get_preloaded_elf, spawn_task_from_elf}
use mene_os.Kernel.Syscall.System
use mene_os.Kernel.Syscall.System.{
  System, Loader, run_task, spawn_cached, begin_system, spawn_app, spawn_app_from_elf, returned,
  spawn_bytes, runs, allocated, deallocated,
}
use mene_os.Kernel.Syscall.Dispatch.{
  Memory, behind, load, Env, Caller, Outcome, returns, unchanged, exits, powers_off, panics,
  LinuxCall, mmap, answer_spawn, answer_dma, answer_read, answer_cfg, serve_mene, serve_linux,
  dispatch, handle_syscall,
}

module _ (m : Machine) where
  -- The system after a call; one that powers the machine off or panics leaves it as it was.
  abbrev pub system_after : System m → Outcome m → System m
  system_after s (returns value mem t) = t
  system_after s (unchanged t) = t
  system_after s (exits t) = t
  system_after s powers_off = s
  system_after s panics = s

  -- The address space with the number `n` is in `t` what it was in `s`.
  abbrev pub Keeps : ℕ → System m → System m → Type 0
  Keeps n s t = get n t.spaces ≡ get n s.spaces

  insert-Keeps :
      (n k : ℕ) (a : m.AddrSpace) (s : System m)
      → n ≢ k
      → get n (insert k a s.spaces) ≡ get n s.spaces
  insert-Keeps n k a s apart = get-insert k n a s.spaces ∙ ground (arith, apart)

module _ (m : Machine) (l : Loader) (env : Env) (n : ℕ) (s : System m)
    (fresh : n < s.next_arc) where
  Answered : Memory → Option (Result AxError ℕ × System m) → Type 0
  Answered mem x = Keeps m n s (system_after m s (answer_spawn m l env mem x))

  run_task-Keeps :
      (mem : Memory) (path : List ℕ) (pid : ℕ) (task : Option (ℕ × ℕ × m.AddrSpace))
      → Answered mem (returned m (run_task m path pid (begin_system m s).1 task))
  unfolding Answered
  run_task-Keeps mem path pid none = refl
  run_task-Keeps mem path pid (some (entry, sp, a)) =
      insert-Keeps m n s.next_arc a s (λ e. omega (arith, e, fresh))

  spawn-Keeps : (mem : Memory) (path : List ℕ) → Answered mem (System.spawn m l path s)
  unfolding Answered System.spawn spawn_app
  spawn-Keeps mem path = elim (Bool-cases (is_utf8 path)) [
    | inr odd ↦ rw odd refl
    | inl text ↦ rw text (cached (get_preloaded_elf path s.assets))
  ]
    where
      cached :
          (file : Option (List ℕ))
          → Answered mem (returned m (spawn_cached m l path (begin_system m s) file))
      cached none = refl
      cached (some file) =
          run_task-Keeps mem path (begin_system m s).0 (spawn_task_from_elf m l.parse path file)

  spawn_elf-Keeps :
      (mem : Memory) (pid : ℕ) (path elf : Option (List ℕ))
      → Answered mem (System.spawn_elf m l pid path elf s)
  unfolding Answered System.spawn_elf spawn_app_from_elf
  spawn_elf-Keeps mem pid path elf =
      elim (Bool-cases (runs m boot_fs (get pid s.kernel.process_table))) [
        | inr elsewhere ↦ rw elsewhere refl
        | inl in_fs ↦ rw in_fs (given path elf)
      ]
    where
      given : (p e : Option (List ℕ)) → Answered mem (spawn_bytes m l p e s)
      given none e = refl
      given (some p) none = refl
      given (some p) (some e) = elim (Bool-cases (length p == 0 || length e == 0)) [
        | inl empty ↦ rw empty refl
        | inr full ↦ elim (Bool-cases (is_utf8 p)) [
          | inr odd ↦ rw (full, odd) refl
          | inl text ↦
              rw (full, text)
                (run_task-Keeps mem p (begin_system m s).0 (spawn_task_from_elf m l.parse p e))
        ]
      ]

module _ (m : Machine) (c : Caller m) where
  -- No other process than the one with the number 3 maps into another address space.
  pub page_to_denied :
      (target vaddr len : ℕ) (s : System m)
      → c.pid ≢ 3
      → System.vmm_map_page_to m c.pid target vaddr len s ≡ (none, s)
  unfolding System.vmm_map_page_to
  page_to_denied target vaddr len s not_vmm =
      let denied : (c.pid == 3) ≡ false = ground (arith, not_vmm) in rw denied refl

module _ (m : Machine) (l : Loader) (env : Env) (n : ℕ) (c : Caller m) (others : n ≢ c.aspace) where
  dma_alloc-Keeps :
      (ptr len : ℕ) (null_out : Bool) (mem : Memory) (s : System m)
      → Keeps m n s (
          system_after m s
            (answer_dma m l env ptr mem (System.dma_alloc m c.aspace c.space len null_out s)))
  unfolding System.dma_alloc
  dma_alloc-Keeps ptr len null_out mem s = elim (Bool-cases (null_out || len == 0)) [
    | inl refused ↦ rw refused refl
    | inr tried ↦ rw tried (result (do_dma_alloc m len (c.space, s.pages)))
  ]
    where
      result :
          (x : Option (ℕ × ℕ) × Space m)
          → Keeps m n s (system_after m s (answer_dma m l env ptr mem (allocated m c.aspace s x)))
      result (none, (a, pages)) = insert-Keeps m n c.aspace a s others
      result (some (vaddr, paddr), (a, pages)) = insert-Keeps m n c.aspace a s others

  dma_dealloc-Keeps :
      (vaddr paddr count : ℕ) (s : System m)
      → Keeps m n s (System.dma_dealloc m c.aspace c.space vaddr paddr count s).1
  unfolding System.dma_dealloc
  dma_dealloc-Keeps vaddr paddr count s = elim (Bool-cases (count == 0)) [
    | inl nothing ↦ rw nothing refl
    | inr some_pages ↦ rw some_pages (
        insert-Keeps m n c.aspace (do_dma_dealloc m vaddr paddr count (c.space, s.pages)).1.0 s
          others)
  ]

  serve_mene-Keeps :
      (call : MeneSysno) (r : Regs) (mem : Memory) (s : System m)
      → c.pid ≢ 3
      → n < s.next_arc
      → Keeps m n s (system_after m s (serve_mene m l env call c r mem s))
  unfolding serve_mene System.mmap_anon System.map_device
  serve_mene-Keeps Sysno.spawn r mem s not_vmm fresh =
      unfold Answered in spawn-Keeps m l env n s fresh mem (load mem r.arg0 r.arg1)
  serve_mene-Keeps Sysno.spawn_elf r mem s not_vmm fresh =
      unfold Answered in
      spawn_elf-Keeps m l env n s fresh mem c.pid (behind r.arg0 (load mem r.arg0 r.arg1))
        (behind r.arg2 (load mem r.arg2 r.arg3))
  serve_mene-Keeps Sysno.mmap_anon r mem s not_vmm fresh =
      insert-Keeps m n c.aspace (do_mmap m 0 r.arg0 c.space).1 s others
  serve_mene-Keeps Sysno.map_device r mem s not_vmm fresh =
      insert-Keeps m n c.aspace (do_map_device m r.arg0 r.arg1 c.space).1 s others
  serve_mene-Keeps Sysno.vmm_map_page_to r mem s not_vmm fresh =
      rw (page_to_denied m c r.arg0 r.arg1 r.arg2 s not_vmm) refl
  serve_mene-Keeps Sysno.dma_alloc r mem s not_vmm fresh =
      dma_alloc-Keeps r.arg1 r.arg0 (r.arg1 == 0) mem s
  serve_mene-Keeps Sysno.dma_dealloc r mem s not_vmm fresh =
      dma_dealloc-Keeps r.arg0 r.arg1 r.arg2 s
  serve_mene-Keeps Sysno.read_file r mem s not_vmm fresh =
      read (System.read_file m l c.pid (load mem r.arg0 r.arg1) r.arg3)
    where
      read :
          (x : Result AxError (List ℕ))
          → Keeps m n s (system_after m s (answer_read m l env r.arg2 mem s x))
      read (ok bytes) = refl
      read (err e) = refl
  serve_mene-Keeps Sysno.get_boot_cfg r mem s not_vmm fresh =
      cfg (System.get_boot_cfg m (behind r.arg0 (load mem r.arg0 r.arg1)) s)
    where
      cfg :
          (x : Result AxError (ℕ × List ℕ))
          → Keeps m n s (system_after m s (answer_cfg m l env r.arg0 mem s x))
      cfg (ok (len, buf)) = refl
      cfg (err e) = refl
  serve_mene-Keeps _ r mem s not_vmm fresh = refl

  serve_linux-Keeps :
      (call : LinuxCall) (r : Regs) (mem : Memory) (s : System m)
      → Keeps m n s (system_after m s (serve_linux m l env call c r mem s))
  unfolding serve_linux System.mmap_anon
  serve_linux-Keeps mmap r mem s = insert-Keeps m n c.aspace (do_mmap m 0 r.arg1 c.space).1 s others
  serve_linux-Keeps _ r mem s = refl

  -- A process that is not the process 3, whatever its registers and its memory hold, changes with a
  -- system call no address space but its own: every other one whose number is given out already is
  -- after the call what it was before.
  pub handle_syscall-Keeps :
      (r : Regs) (mem : Memory) (s : System m)
      → c.pid ≢ 3
      → n < s.next_arc
      → Keeps m n s (system_after m s (handle_syscall m l env c r mem s))
  unfolding handle_syscall
  handle_syscall-Keeps r mem s not_vmm fresh = by_number (try_from r.sysno)
    where
      by_number :
          (x : Option MeneSysno) → Keeps m n s (system_after m s (dispatch m l env x c r mem s))
      by_number (some call) = serve_mene-Keeps call r mem s not_vmm fresh
      by_number none = serve_linux-Keeps (env.linux r.sysno) r mem s
