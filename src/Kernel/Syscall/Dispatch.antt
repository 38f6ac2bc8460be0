-- ===== src/Kernel/Syscall/Dispatch.antt =====
-- kernel/mene-syscall/src/lib.rs, `handle_syscall`: from the registers and the memory of a caller to
-- the arms, and back. The bytes of the memory are numbers below 256, and a word is 8 of them, the
-- lowest first.
pub mod Memory
pub mod Numbers
pub mod Messages
pub mod Isolation
pub mod Runs
pub mod Writes
pub mod Frame
use mene_os.Base.{
  ℕ, zero, suc, ◌+◌, ◌*◌, Bool, List, [], ◌∷◌, Option, none, some, Result, ok, err, length, ◌==◌,
  if◌then◌else◌, to_le, from_le,
}
use mene_os.Abi.Regs.{Regs}
use mene_os.Abi.Sysno
use mene_os.Abi.Sysno.{MeneSysno, try_from}
use mene_os.Ipc.Manager.{AxError}
use mene_os.Kernel.Memory.{Machine}
use mene_os.Kernel.Syscall
use mene_os.Kernel.Syscall.{Kernel, UserMemory, Iovec, retval, pci_cfg_read}
use mene_os.Kernel.Syscall.System
use mene_os.Kernel.Syscall.System.{System, Loader, FixedCall, fixed_answer, unimplemented}

abbrev pub Memory : Type 0
Memory = ℕ → ℕ

-- `from_raw_parts(ptr, len)`
unfoldable pub load : Memory → ℕ → ℕ → List ℕ
load mem ptr zero = []
load mem ptr (suc len) = mem ptr ∷ load mem (ptr + 1) len

abbrev pub set_byte : ℕ → ℕ → Memory → Memory
set_byte ptr b mem a = if a == ptr then b else mem a

unfoldable pub store : ℕ → List ℕ → Memory → Memory
store ptr [] mem = mem
store ptr (b ∷ bs) mem = store (ptr + 1) bs (set_byte ptr b mem)

abbrev pub word : Memory → ℕ → ℕ
word mem ptr = from_le (load mem ptr 8)

abbrev pub store_word : ℕ → ℕ → Memory → Memory
store_word ptr value mem = store ptr (to_le 8 value) mem

-- What stands behind a pointer, `none` if it is null.
abbrev pub behind {ℓ} : {A : Type ℓ} → ℕ → A → Option A
behind ptr a = if ptr == 0 then none else some a

abbrev pub store_behind : ℕ → Option (List ℕ) → Memory → Memory
store_behind ptr none mem = mem
store_behind ptr (some bytes) mem = store ptr bytes mem

abbrev pub store_word_behind : ℕ → Option ℕ → Memory → Memory
store_word_behind ptr none mem = mem
store_word_behind ptr (some value) mem = store_word ptr value mem

-- The Linux calls that the kernel knows; `other` is any other number.
pub data LinuxCall : Type 0 where
  fixed : FixedCall → LinuxCall
  mmap write writev exit other : LinuxCall

-- What the handler uses besides the system: the numbers of the crate `syscalls`, the words of
-- the physical memory, the base of the PCI configuration space, the clock and the numbers of errors.
pub record Env : Type 0 where
  pub linux : ℕ → LinuxCall
  pub physical : ℕ → ℕ
  pub ecam_base : ℕ
  pub now_ns : ℕ
  pub code : AxError → ℕ

-- The calling process: its number, and its address space with the number of that.
pub record Caller (m : Machine) : Type 0 where
  pub pid : ℕ
  pub aspace : ℕ
  pub space : m.AddrSpace

-- How the handler ends: with a value in x0, with x0 as it was, with the end of the process or of
-- the machine, or in a panic.
pub data Outcome (m : Machine) : Type 0 where
  returns : ℕ → Memory → System m → Outcome m
  unchanged : System m → Outcome m
  exits : System m → Outcome m
  powers_off : Outcome m
  panics : Outcome m

-- The entries of the vector of `writev`.
unfoldable pub iovecs : Memory → ℕ → ℕ → List Iovec
iovecs mem ptr zero = []
iovecs mem ptr (suc n) =
    let base = word mem ptr in
    let base_len = word mem (ptr + 8) in
    record { base = behind base (load mem base base_len); base_len = base_len }
    ∷ iovecs mem (ptr + 16) n

module _ (m : Machine) (l : Loader) (env : Env) where
  abbrev pub answer : Memory → Result AxError ℕ × System m → Outcome m
  answer mem (r, s) = returns (retval env.code r) mem s

  abbrev pub answer_kernel : Memory → System m → Result AxError ℕ × Kernel → Outcome m
  answer_kernel mem s (r, k) = returns (retval env.code r) mem (record s { kernel = k })

  abbrev pub answer_spawn : Memory → Option (Result AxError ℕ × System m) → Outcome m
  answer_spawn mem none = panics
  answer_spawn mem (some x) = answer mem x

  -- The buffer and the two words that a receive leaves.
  abbrev pub answer_recv :
      ℕ → ℕ → ℕ → Memory → System m → Result AxError ℕ × UserMemory × Kernel → Outcome m
  answer_recv buf_ptr sender_ptr cap_ptr mem s (r, user, k) =
      returns (retval env.code r)
        (store_word_behind cap_ptr user.recv_cap
          (store_word_behind sender_ptr user.sender_pid (store_behind buf_ptr user.buf mem)))
        (record s { kernel = k })

  abbrev pub answer_read : ℕ → Memory → System m → Result AxError (List ℕ) → Outcome m
  answer_read ptr mem s (err e) = returns (env.code e) mem s
  answer_read ptr mem s (ok bytes) = returns (length bytes) (store ptr bytes mem) s

  abbrev pub answer_cfg : ℕ → Memory → System m → Result AxError (ℕ × List ℕ) → Outcome m
  answer_cfg ptr mem s (err e) = returns (env.code e) mem s
  answer_cfg ptr mem s (ok (n, buf)) = returns n (store ptr buf mem) s

  abbrev pub answer_dma : ℕ → Memory → Result AxError (ℕ × ℕ) × System m → Outcome m
  answer_dma ptr mem (err e, s) = returns (env.code e) mem s
  answer_dma ptr mem (ok (vaddr, paddr), s) = returns vaddr (store_word ptr paddr mem) s

  abbrev pub answer_page_to : Memory → Option (Result AxError ℕ) × System m → Outcome m
  answer_page_to mem (none, s) = unchanged s
  answer_page_to mem (some r, s) = answer mem (r, s)

  -- The match on `MeneSysno`.
  unfoldable pub serve_mene : MeneSysno → Caller m → Regs → Memory → System m → Outcome m
  serve_mene Sysno.spawn c r mem s = answer_spawn mem (System.spawn m l (load mem r.arg0 r.arg1) s)
  serve_mene Sysno.spawn_elf c r mem s = answer_spawn mem (
      System.spawn_elf m l c.pid (behind r.arg0 (load mem r.arg0 r.arg1))
        (behind r.arg2 (load mem r.arg2 r.arg3)) s)
  serve_mene Sysno.ipc_send c r mem s =
      answer_kernel mem s (Syscall.ipc_send c.pid r.arg0 (load mem r.arg1 r.arg2) r.arg3 s.kernel)
  serve_mene Sysno.ipc_recv c r mem s = answer_recv r.arg0 r.arg2 r.arg3 mem s (
      Syscall.ipc_recv c.pid (load mem r.arg0 r.arg1)
        (record {
          buf = none;
          sender_pid = behind r.arg2 (word mem r.arg2);
          recv_cap = behind r.arg3 (word mem r.arg3);
        })
        s.kernel)
  serve_mene Sysno.ipc_recv_timeout c r mem s = answer_recv r.arg0 r.arg2 (r.arg2 + 8) mem s (
      Syscall.ipc_recv_timeout c.pid r.arg3
        (record {
          buf = behind r.arg0 (load mem r.arg0 r.arg1);
          sender_pid = behind r.arg2 (word mem r.arg2);
          recv_cap = behind r.arg2 (word mem (r.arg2 + 8));
        })
        s.kernel)
  serve_mene Sysno.uptime_ms c r mem s = returns (System.uptime_ms env.now_ns) mem s
  serve_mene Sysno.read_file c r mem s =
      answer_read r.arg2 mem s (System.read_file m l c.pid (load mem r.arg0 r.arg1) r.arg3)
  serve_mene Sysno.map_device c r mem s =
      answer mem (System.map_device m c.aspace c.space r.arg0 r.arg1 s)
  serve_mene Sysno.mmap_anon c r mem s = answer mem (System.mmap_anon m c.aspace c.space r.arg0 s)
  serve_mene Sysno.vmm_map_page_to c r mem s =
      answer_page_to mem (System.vmm_map_page_to m c.pid r.arg0 r.arg1 r.arg2 s)
  serve_mene Sysno.dma_alloc c r mem s =
      answer_dma r.arg1 mem (System.dma_alloc m c.aspace c.space r.arg0 (r.arg1 == 0) s)
  serve_mene Sysno.pci_cfg_read c r mem s =
      answer mem (pci_cfg_read env.physical env.ecam_base r.arg0 r.arg1 r.arg2 r.arg3, s)
  serve_mene Sysno.dma_dealloc c r mem s =
      answer mem (System.dma_dealloc m c.aspace c.space r.arg0 r.arg1 r.arg2 s)
  serve_mene Sysno.virt_to_phys c r mem s = answer mem (System.virt_to_phys m r.arg0 c.space, s)
  serve_mene Sysno.sleep_ms c r mem s = returns 0 mem s
  serve_mene Sysno.system_off c r mem s = powers_off
  serve_mene Sysno.get_boot_cfg c r mem s =
      answer_cfg r.arg0 mem s (System.get_boot_cfg m (behind r.arg0 (load mem r.arg0 r.arg1)) s)

  -- The match on `Sysno`.
  unfoldable pub serve_linux : LinuxCall → Caller m → Regs → Memory → System m → Outcome m
  serve_linux (fixed f) c r mem s = returns (fixed_answer c.pid f) mem s
  serve_linux mmap c r mem s = answer mem (System.mmap_anon m c.aspace c.space r.arg1 s)
  serve_linux write c r mem s =
      answer_kernel mem s
        (Syscall.write c.pid (behind r.arg1 (load mem r.arg1 r.arg2)) r.arg2 s.kernel)
  serve_linux writev c r mem s =
      answer_kernel mem s
        (Syscall.writev c.pid (behind r.arg1 (iovecs mem r.arg1 r.arg2)) r.arg2 s.kernel)
  serve_linux exit c r mem s = exits (record s { kernel = Syscall.exit c.pid r.arg0 s.kernel })
  serve_linux other c r mem s = returns unimplemented mem s

  abbrev pub dispatch : Option MeneSysno → Caller m → Regs → Memory → System m → Outcome m
  dispatch (some call) c r mem s = serve_mene call c r mem s
  dispatch none c r mem s = serve_linux (env.linux r.sysno) c r mem s

  unfoldable pub handle_syscall : Caller m → Regs → Memory → System m → Outcome m
  handle_syscall c r mem s = dispatch (try_from r.sysno) c r mem s
