-- ===== src/Kernel/Tests/Calls.antt =====
-- Runs of system calls from registers and memory, on the machine of `Boot`.
use mene_os.Base.{◌-◌, ◌^◌, ◌≡◌, refl, [], ◌∷◌, none, some, arith, inl, ◌==◌, if◌then◌else◌}
use mene_os.Base.BTreeMap.{get}
use mene_os.Abi.Sysno
use mene_os.Abi.Sysno.{try_from}
use mene_os.Abi.Handle.{serial_endpoint, to_usize}
use mene_os.Ipc.Endpoint.{new_endpoint}
use mene_os.Ipc.Manager.{u64}
use mene_os.Ipc.Mailboxes.{messages}
use mene_os.Kernel.Syscall.System.{System}
use mene_os.Kernel.Syscall.Dispatch.{
  Memory, load, word, Env, Caller, returns, fixed, other, handle_syscall,
}
use mene_os.Kernel.Syscall.System.{getpid}
use mene_os.Kernel.Syscall.Dispatch.Messages.{ipc_recv-ipc_send}
use mene_os.Kernel.Syscall.Dispatch.Isolation.{Keeps}
use mene_os.Kernel.Syscall.Dispatch.Frame.{handle_syscall-Outside, memory_after}
use mene_os.Kernel.Syscall.Dispatch.Runs.{Runs, Runs-Keeps, round, syscall, interrupt, stop, next}
use mene_os.Ulib.Calls
use mene_os.Kernel.Tests.Boot.{machine, loader, system}

abbrev env : Env
env = record {
  linux = λ n. if n == 172 then fixed getpid else other;
  physical = λ a. 0;
  ecam_base = 0x4010_000000;
  now_ns = 0;
  code = λ e. 2 ^ 64 - 22;
}

-- The process 2 has an empty mailbox; the address spaces 0 and 1 are given out.
abbrev serving : System machine
serving = record system {
  kernel = record system.kernel { endpoints = some ((2, new_endpoint) ∷ []) };
  spaces = (0, 5) ∷ (1, 6) ∷ [];
}

abbrev sender : Caller machine
sender = record { pid = 7; aspace = 1; space = 6 }

abbrev receiver : Caller machine
receiver = record { pid = 2; aspace = 0; space = 5 }

-- The bytes of "hi" at the address 100.
abbrev sent : Memory
sent a = if a == 100 then b'h' else if a == 101 then b'i' else 0

ipc_recv-ipc_send_example :
    (t u : System machine) × (after : Memory) × (handle_syscall machine loader env sender
        (Calls.sys_ipc_send serial_endpoint 100 2 none)
        sent
        serving
      ≡ returns 0 sent t)
    × (handle_syscall machine loader env receiver (Calls.sys_ipc_recv 200 16 300 400) (λ a. 0) t
        ≡ returns 2 after u)
    × (load after 200 2 ≡ load sent 100 2)
    × (word after 300 ≡ u64 7)
    × (word after 400 ≡ 0)
unfolding messages to_usize get
ipc_recv-ipc_send_example =
    ipc_recv-ipc_send machine loader env sender receiver serial_endpoint 100 2 200 16 300 400 sent
      (λ a. 0) serving refl refl (omega arith) (omega arith) (omega arith) (inl (omega arith))
      (inl (omega arith)) (inl (omega arith))

-- The process 7 is interrupted and then maps memory.
mapping :
    Runs machine loader env 0 serving
      (round machine loader env sender (syscall (Calls.sys_mmap 4096) sent) serving)
unfolding get
mapping =
    next sender interrupt (λ e. omega (arith, e)) (λ e. omega (arith, e)) refl
      (next sender (syscall (Calls.sys_mmap 4096) sent) (λ e. omega (arith, e))
        (λ e. omega (arith, e)) refl (stop _))

Runs-Keeps_example :
    Keeps machine 0 serving
      (round machine loader env sender (syscall (Calls.sys_mmap 4096) sent) serving)
Runs-Keeps_example = Runs-Keeps machine loader env 0 serving _ (omega arith) mapping

-- A receive into 200 to 215, 300 and 400 leaves the byte at 100.
handle_syscall-Outside_example :
    memory_after sent
      (handle_syscall machine loader env receiver (Calls.sys_ipc_recv 200 16 300 400) sent serving)
      100
    ≡ sent 100
unfolding Calls.sys_ipc_recv try_from Sysno.to_usize
handle_syscall-Outside_example =
    handle_syscall-Outside machine loader env 100 receiver (Calls.sys_ipc_recv 200 16 300 400) sent
      serving (inl (omega arith), (inl (omega arith), (inl (omega arith), tt)))
