-- ===== src/Kernel/Syscall/System.antt =====
-- kernel/mene-syscall/src/lib.rs: `spawn_app`, `spawn_app_from_elf` and the calls of
-- `handle_syscall` on programs, files and memory. A pointer is the bytes behind it, `none` when it is
-- null; a call that panics is `none`.
pub mod Spawn
use mene_os.Base.{
  ℕ, zero, ◌+◌, ◌-◌, ◌*◌, ◌/◌, ◌%◌, ◌^◌, min, Bool, true, false, not, ◌||◌, List, [], ◌∷◌, Option,
  none, some, Result, ok, err, length, take, leb, ltb, ◌==◌, if◌then◌else◌, bytes_eq,
}
use mene_os.Base.BTreeMap.{Map, get, insert, modify}
use mene_os.Base.Utf8.{is_utf8}
use mene_os.Ipc.Endpoint.{Capability, endpoint}
use mene_os.Ipc.Manager.{
  AxError, not_found, invalid_input, permission_denied, no_memory, no_such_process, bad_address,
  init_process,
}
use mene_os.Kernel.Process.{ProcessInfo}
use mene_os.Kernel.Lifecycle.{Supervisor, allocate_pid, register_process, transition_state, ready}
use mene_os.Kernel.Device.{DeviceInfo, inject_bootstrap_capabilities, boot_fs}
use mene_os.Kernel.Memory.{
  Machine, Space, map_failed, do_mmap, do_map_device, do_dma_alloc, do_dma_dealloc, do_virt_to_phys,
}
use mene_os.Kernel.Task.{Assets, Elf, get_preloaded_elf, spawn_task_from_elf, copy_boot_cfg_to}
use mene_os.Kernel.Syscall.{Kernel}

-- Everything that the calls use: the address spaces and the endpoints that are shared have numbers,
-- the next one in `next_arc`; a task that runs is its process, its entry point and its stack pointer.
pub record System (m : Machine) : Type 0 where
  pub kernel : Kernel
  pub spaces : Map m.AddrSpace
  pub pages : m.Pages
  pub next_arc : ℕ
  pub assets : Assets
  pub devices : List DeviceInfo
  pub tasks : List (ℕ × ℕ × ℕ)

-- The crates besides those of `Machine`: `xmas_elf` and the file system of the kernel.
pub record Loader : Type 0 where
  pub parse : List ℕ → Option Elf
  pub files : List ℕ → Option (List ℕ)

module _ (m : Machine) where
  -- The first three calls of `spawn_app`.
  abbrev pub begin_process : Kernel → ℕ × Kernel
  begin_process k =
      let (pid, s) = allocate_pid k.supervisor in
      (
        pid,
        record k { supervisor = register_process pid s; endpoints = init_process pid k.endpoints },
      )

  -- The capabilities of a new process: its own endpoint behind handle 1, and those of the services.
  abbrev pub first_cspace : List DeviceInfo → List ℕ → ℕ → Map ProcessInfo → Map Capability
  first_cspace devices path local_endpoint ptable =
      inject_bootstrap_capabilities devices path ptable (insert 1 (endpoint local_endpoint) [])

  -- What `spawn_app` does with the address space of the task.
  abbrev pub add_process : List ℕ → ℕ → ℕ → System m → System m
  add_process path pid aspace s =
      let local_endpoint = s.next_arc in
      record s {
        next_arc = s.next_arc + 1;
        kernel = record s.kernel {
          process_table =
              insert pid
                (record {
                  app_path = path;
                  aspace = aspace;
                  cspace = first_cspace s.devices path local_endpoint s.kernel.process_table;
                  local_endpoint = local_endpoint;
                })
                s.kernel.process_table;
          supervisor = transition_state pid ready s.kernel.supervisor;
        };
      }

  -- The end of `spawn_task_from_elf`: the address space is shared and the task runs.
  abbrev pub start_task : ℕ → ℕ × ℕ × m.AddrSpace → System m → ℕ × System m
  start_task pid (entry_point, sp, a) s = (
    s.next_arc,
    record s {
      next_arc = s.next_arc + 1;
      spaces = insert s.next_arc a s.spaces;
      tasks = (pid, entry_point, sp) ∷ s.tasks;
    },
  )

  abbrev pub run_task : List ℕ → ℕ → System m → Option (ℕ × ℕ × m.AddrSpace) → Option (ℕ × System m)
  run_task path pid s none = none
  run_task path pid s (some task) =
      let (aspace, s') = start_task pid task s in some (pid, add_process path pid aspace s')

  abbrev pub begin_system : System m → ℕ × System m
  begin_system s = let (pid, k) = begin_process s.kernel in (pid, record s { kernel = k })

  -- `spawn_task` returns process 0 for a path that is not in the cache.
  abbrev pub spawn_cached : Loader → List ℕ → ℕ × System m → Option (List ℕ) → Option (ℕ × System m)
  spawn_cached l path (pid, s) none = some (0, s)
  spawn_cached l path (pid, s) (some file) =
      run_task path pid s (spawn_task_from_elf m l.parse path file)

  unfoldable pub spawn_app : Loader → List ℕ → System m → Option (ℕ × System m)
  spawn_app l path s = spawn_cached l path (begin_system s) (get_preloaded_elf path s.assets)

  unfoldable pub spawn_app_from_elf : Loader → List ℕ → List ℕ → System m → Option (ℕ × System m)
  spawn_app_from_elf l path elf s =
      let (pid, s') = begin_system s in
      run_task path pid s' (spawn_task_from_elf m l.parse path elf)

  abbrev pub Answer : Type 0
  Answer = Result AxError ℕ × System m

  abbrev pub returned : Option (ℕ × System m) → Option Answer
  returned none = none
  returned (some (pid, s)) = some (ok pid, s)

  -- MeneSysno::Spawn
  unfoldable pub spawn : Loader → List ℕ → System m → Option Answer
  spawn l path s =
      let spawned = returned (spawn_app l path s) in
      if is_utf8 path then spawned else some (err invalid_input, s)

  abbrev pub runs : List ℕ → Option ProcessInfo → Bool
  runs path none = false
  runs path (some p) = bytes_eq p.app_path path

  abbrev pub spawn_bytes : Loader → Option (List ℕ) → Option (List ℕ) → System m → Option Answer
  spawn_bytes l none elf s = some (err invalid_input, s)
  spawn_bytes l (some path) none s = some (err invalid_input, s)
  spawn_bytes l (some path) (some elf) s =
      let spawned = returned (spawn_app_from_elf l path elf s) in
      if length path == 0 || length elf == 0
      then some (err invalid_input, s)
      else if is_utf8 path
      then spawned
      else some (err invalid_input, s)

  -- MeneSysno::SpawnElf
  unfoldable pub spawn_elf :
      Loader → ℕ → Option (List ℕ) → Option (List ℕ) → System m → Option Answer
  spawn_elf l current_pid path elf s =
      let spawned = spawn_bytes l path elf s in
      if runs boot_fs (get current_pid s.kernel.process_table)
      then spawned
      else some (err permission_denied, s)

  abbrev pub copy_file : Option (List ℕ) → ℕ → Result AxError (List ℕ)
  copy_file none buf_len = err not_found
  copy_file (some file) buf_len = ok (take (min (length file) buf_len) file)

  -- MeneSysno::ReadFile: the bytes that are copied to the buffer; the call returns their number.
  unfoldable pub read_file : Loader → ℕ → List ℕ → ℕ → Result AxError (List ℕ)
  read_file l current_pid path buf_len =
      if not (current_pid == 1)
      then err permission_denied
      else if is_utf8 path
      then copy_file (l.files path) buf_len
      else err invalid_input

  -- MeneSysno::GetBootCfg: the number of bytes, and the buffer.
  unfoldable pub get_boot_cfg : Option (List ℕ) → System m → Result AxError (ℕ × List ℕ)
  get_boot_cfg none s = err invalid_input
  get_boot_cfg (some buf) s =
      if length buf == 0 then err invalid_input else ok (copy_boot_cfg_to buf s.assets)

  abbrev pub set_space : ℕ → m.AddrSpace → System m → System m
  set_space n a s = record s { spaces = insert n a s.spaces }

  abbrev pub set_memory : ℕ → Space m → System m → System m
  set_memory n (a, pages) s = record s { spaces = insert n a s.spaces; pages = pages }

  abbrev pub mapped : ℕ → System m → ℕ × m.AddrSpace → Answer
  mapped n s (addr, a) = (if addr == map_failed then err no_memory else ok addr, set_space n a s)

  -- MeneSysno::MmapAnon, and Sysno::mmap, on the address space `a`, which has the number `n`.
  unfoldable pub mmap_anon : ℕ → m.AddrSpace → ℕ → System m → Answer
  mmap_anon n a len s = mapped n s (do_mmap m 0 len a)

  -- MeneSysno::MapDevice returns the value of a failed mapping as it is.
  unfoldable pub map_device : ℕ → m.AddrSpace → ℕ → ℕ → System m → Answer
  map_device n a paddr len s =
      let (addr, a') = do_map_device m paddr len a in (ok addr, set_space n a' s)

  abbrev pub mmap_space : ℕ → ℕ → ℕ → Option m.AddrSpace → System m → Answer
  mmap_space n vaddr len none s = (err no_such_process, s)
  mmap_space n vaddr len (some a) s = mapped n s (do_mmap m vaddr len a)

  abbrev pub mmap_process : Option ProcessInfo → ℕ → ℕ → System m → Answer
  mmap_process none vaddr len s = (err no_such_process, s)
  mmap_process (some info) vaddr len s =
      mmap_space info.aspace vaddr len (get info.aspace s.spaces) s

  -- MeneSysno::VmmMapPageTo: without a result, the word of the caller stays as it was.
  unfoldable pub vmm_map_page_to : ℕ → ℕ → ℕ → ℕ → System m → Option (Result AxError ℕ) × System m
  vmm_map_page_to current_pid target_pid vaddr len s =
      let (r, s') = mmap_process (get target_pid s.kernel.process_table) vaddr len s in
      if current_pid == 3 then (some r, s') else (none, s)

  abbrev pub allocated : ℕ → System m → Option (ℕ × ℕ) × Space m → Result AxError (ℕ × ℕ) × System m
  allocated n s (none, sp) = (err no_memory, set_memory n sp s)
  allocated n s (some (vaddr, paddr), sp) = (ok (vaddr, paddr), set_memory n sp s)

  -- MeneSysno::DmaAlloc: the result, and the word that is written behind `paddr_out`.
  unfoldable pub dma_alloc :
      ℕ → m.AddrSpace → ℕ → Bool → System m → Result AxError (ℕ × ℕ) × System m
  dma_alloc n a len null_out s =
      if null_out || len == 0
      then (err invalid_input, s)
      else allocated n s (do_dma_alloc m len (a, s.pages))

  abbrev pub deallocated : ℕ → System m → Bool × Space m → Answer
  deallocated n s (done, sp) = (if done then ok 0 else err invalid_input, set_memory n sp s)

  -- MeneSysno::DmaDealloc
  unfoldable pub dma_dealloc : ℕ → m.AddrSpace → ℕ → ℕ → ℕ → System m → Answer
  dma_dealloc n a user_vaddr paddr num_pages s =
      if num_pages == 0
      then (ok 0, s)
      else deallocated n s (do_dma_dealloc m user_vaddr paddr num_pages (a, s.pages))

  abbrev or_bad_address : Option ℕ → Result AxError ℕ
  or_bad_address none = err bad_address
  or_bad_address (some paddr) = ok paddr

  -- MeneSysno::VirtToPhys
  unfoldable pub virt_to_phys : ℕ → m.AddrSpace → Result AxError ℕ
  virt_to_phys user_vaddr a = or_bad_address (do_virt_to_phys m user_vaddr a)

-- MeneSysno::UptimeMs, of the nanoseconds of the clock.
unfoldable pub uptime_ms : ℕ → ℕ
uptime_ms now_ns = now_ns / 1_000_000

-- The Linux calls that always return the same: the number of the process, or 0.
pub data FixedCall : Type 0 where
  set_tid_address ppoll tkill tgkill rt_sigaction rt_sigprocmask sigaltstack munmap mprotect getpid
        brk :
      FixedCall

pub fixed_answer : ℕ → FixedCall → ℕ
fixed_answer current_pid set_tid_address = current_pid
fixed_answer current_pid getpid = current_pid
fixed_answer current_pid _ = 0

-- `-38isize as usize`, for every other number
abbrev pub unimplemented : ℕ
unimplemented = 2 ^ 64 - 38
