-- ===== src/Kernel/Syscall.antt =====
-- kernel/mene-syscall/src/lib.rs, `handle_syscall`: the calls that send and receive messages, the
-- writes of Linux programs, the exit of a process and the reads of the PCI configuration space. A
-- pointer is the bytes behind it, `none` when it is null.
pub mod Exit
pub mod Writev
pub mod Capabilities
pub mod Pci
pub mod System
pub mod Dispatch
use mene_os.Base.{
  ◌*◌, ◌||◌, not, leb, ℕ, ◌+◌, ◌-◌, ◌%◌, ◌^◌, Bool, List, [], ◌∷◌, Option, none, some, length, ltb,
  leb, ◌==◌, if◌then◌else◌, Result, ok, err, map_ok,
}
use mene_os.Base.Int.{ℤ, pos, negsuc}
use mene_os.Base.BTreeMap.{Map, remove}
use mene_os.Abi.Handle.{serial_endpoint}
use mene_os.Abi.Handle
use mene_os.Ipc.Manager
use mene_os.Ipc.Manager.{AxError, invalid_input, Endpoints, Received, recv, recv_timeout, send}
use mene_os.Kernel.Process.{ProcessInfo}
use mene_os.Kernel.Lifecycle
use mene_os.Kernel.Lifecycle.{Supervisor, mark_process_exited}

-- What the calls act on: the processes of the supervisor, the endpoints, and PROCESS_TABLE.
pub record Kernel : Type 0 where
  pub supervisor : Supervisor
  pub endpoints : Endpoints
  pub process_table : Map ProcessInfo

-- What a receive leaves behind the pointers of the caller.
pub record UserMemory : Type 0 where
  pub buf : Option (List ℕ)
  pub sender_pid : Option ℕ
  pub recv_cap : Option ℕ

abbrev pub write_word : ℕ → Option ℕ → Option ℕ
write_word value none = none
write_word value (some old) = some value

abbrev pub with_endpoints {ℓ} : {A : Type ℓ} → Kernel → A × Endpoints → A × Kernel
with_endpoints k (a, eps) = (a, record k { endpoints = eps })

abbrev pub sent_zero : Result AxError Unit × Kernel → Result AxError ℕ × Kernel
sent_zero (r, k) = (map_ok (λ _. 0) r, k)

-- MeneSysno::IpcSend
unfoldable pub ipc_send : ℕ → ℕ → List ℕ → ℕ → Kernel → Result AxError ℕ × Kernel
ipc_send current_pid handle slice passed_cap k =
    sent_zero (with_endpoints k (send current_pid handle slice passed_cap k.endpoints))

abbrev pub words_on : Result AxError ℕ → ℕ → Option ℕ → Option ℕ
words_on (ok copied) value old = write_word value old
words_on (err e) value old = old

abbrev pub received : UserMemory → Received × Kernel → Result AxError ℕ × UserMemory × Kernel
received user (r, k) = (
  r.result,
  record {
    buf = some r.buf;
    sender_pid = words_on r.result r.sender_pid user.sender_pid;
    recv_cap = words_on r.result r.recv_cap user.recv_cap;
  },
  k,
)

-- MeneSysno::IpcRecv, with `buf` the `buf_max` bytes behind `buf_ptr`.
unfoldable pub ipc_recv : ℕ → List ℕ → UserMemory → Kernel → Result AxError ℕ × UserMemory × Kernel
ipc_recv current_pid buf user k =
    received user (with_endpoints k (recv current_pid buf 0 0 k.endpoints))

-- MeneSysno::IpcRecvTimeout: `sender_pid` and `recv_cap` are the two words behind `meta_ptr`.
unfoldable pub ipc_recv_timeout :
    ℕ → ℕ → UserMemory → Kernel → Result AxError ℕ × UserMemory × Kernel
ipc_recv_timeout current_pid timeout_ms user k = elim user.buf [
  | none ↦ (err invalid_input, user, k)
  | some buf ↦ elim user.sender_pid [
    | none ↦ (err invalid_input, user, k)
    | some _ ↦
        received user (with_endpoints k (recv_timeout current_pid buf 0 0 timeout_ms k.endpoints))
  ]
]

abbrev sent_len : List ℕ → Result AxError Unit × Kernel → Result AxError ℕ × Kernel
sent_len bytes (r, k) = (map_ok (λ _. length bytes) r, k)

pub linux_write_serial : ℕ → List ℕ → Kernel → Result AxError ℕ × Kernel
linux_write_serial current_pid bytes k =
    sent_len bytes
      (with_endpoints k (send current_pid (Handle.to_usize serial_endpoint) bytes 0 k.endpoints))

-- Sysno::write, with the bytes behind the pointer, `none` when it is null, and the length.
unfoldable pub write : ℕ → Option (List ℕ) → ℕ → Kernel → Result AxError ℕ × Kernel
write current_pid (some slice) len k = linux_write_serial current_pid slice k
write current_pid none len k =
    if len == 0 then linux_write_serial current_pid [] k else (err invalid_input, k)

abbrev pub saturating_add : ℕ → ℕ → ℕ
saturating_add n m = if ltb (n + m) (2 ^ 64) then n + m else 2 ^ 64 - 1

-- One entry of the vector of `writev`: the bytes behind its base and its length.
pub record Iovec : Type 0 where
  pub base : Option (List ℕ)
  pub base_len : ℕ

-- The loop of `Sysno::writev` over the entries that are left.
unfoldable pub writev_loop : ℕ → List Iovec → ℕ → Kernel → Result AxError ℕ × Kernel
writev_loop current_pid [] total k = (ok total, k)
writev_loop current_pid (v ∷ vs) total k =
    let skipped = writev_loop current_pid vs total k in
    if v.base_len == 0 then skipped else elim v.base [
      | none ↦ (err invalid_input, k)
      | some slice ↦
          let (r, k') = linux_write_serial current_pid slice k in
          let rest = writev_loop current_pid vs (saturating_add total v.base_len) k' in
          elim r [ err e ↦ (err e, k') | ok n ↦ rest ]
    ]

-- Sysno::writev, `none` when the pointer to the vector is null.
unfoldable pub writev : ℕ → Option (List Iovec) → ℕ → Kernel → Result AxError ℕ × Kernel
writev current_pid (some vs) cnt k = writev_loop current_pid vs 0 k
writev current_pid none cnt k = if cnt == 0 then (ok 0, k) else (err invalid_input, k)

-- `uctx.arg0() as i32`
abbrev pub as_i32 : ℕ → ℤ
as_i32 n = let low = n % 2 ^ 32 in if ltb low (2 ^ 31) then pos low else negsuc (2 ^ 32 - 1 - low)

-- Sysno::exit and Sysno::exit_group
unfoldable pub exit : ℕ → ℕ → Kernel → Kernel
exit current_pid arg0 k = record {
  supervisor =
      Lifecycle.cleanup_process current_pid
        (mark_process_exited current_pid (as_i32 arg0) k.supervisor);
  endpoints = Manager.cleanup_process current_pid k.endpoints;
  process_table = remove current_pid k.process_table;
}

-- The value that the caller gets, with the number of each error as a 64-bit word.
abbrev pub retval : (AxError → ℕ) → Result AxError ℕ → ℕ
retval code (ok val) = val
retval code (err e) = code e

-- MeneSysno::PciCfgRead: the physical address that is read, from the base of the window, with sums
-- and shifts that wrap around, `none` for arguments that are refused.
unfoldable pub pci_cfg_addr : ℕ → ℕ → ℕ → ℕ → ℕ → Option ℕ
pci_cfg_addr ecam_base bus device function offset =
    if leb 32 device || leb 8 function || ltb 0xffc offset || not (offset % 4 == 0)
    then none
    else some (
        (ecam_base + bus * 2 ^ 20 % 2 ^ 64 + device * 2 ^ 15 + function * 2 ^ 12 + offset) % 2 ^ 64)

abbrev pub read_at : (ℕ → ℕ) → Option ℕ → Result AxError ℕ
read_at memory none = err invalid_input
read_at memory (some addr) = ok (memory addr)

-- The call itself, with the words of the physical memory.
pub pci_cfg_read : (ℕ → ℕ) → ℕ → ℕ → ℕ → ℕ → ℕ → Result AxError ℕ
pci_cfg_read memory ecam_base bus device function offset =
    read_at memory (pci_cfg_addr ecam_base bus device function offset)
