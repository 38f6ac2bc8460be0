-- ===== src/Ulib/Calls.antt =====
-- apps/ulib/src/lib.rs: the registers that the wrappers of the system calls set. A slice is given by
-- its address and its length, a `&mut usize` by its address.
use mene_os.Base.{ℕ, Option}
use mene_os.Abi.Handle.{Handle}
use mene_os.Abi.Handle
use mene_os.Abi.Regs.{Regs}
use mene_os.Abi.Sysno
use mene_os.Ulib.Ipc.{passed_number}

-- The operands of `svc` in `syscall`.
abbrev pub syscall : ℕ → ℕ → ℕ → ℕ → ℕ → Regs
syscall sysno arg0 arg1 arg2 arg3 = record {
  sysno = sysno;
  arg0 = arg0;
  arg1 = arg1;
  arg2 = arg2;
  arg3 = arg3;
}

unfoldable pub sys_spawn : ℕ → ℕ → Regs
sys_spawn path path_len = syscall (Sysno.to_usize Sysno.spawn) path path_len 0 0

unfoldable pub sys_spawn_elf : ℕ → ℕ → ℕ → ℕ → Regs
sys_spawn_elf path path_len elf elf_len =
    syscall (Sysno.to_usize Sysno.spawn_elf) path path_len elf elf_len

unfoldable pub sys_read_file : ℕ → ℕ → ℕ → ℕ → Regs
sys_read_file path path_len buf buf_len =
    syscall (Sysno.to_usize Sysno.read_file) path path_len buf buf_len

unfoldable pub sys_get_boot_cfg : ℕ → ℕ → Regs
sys_get_boot_cfg buf buf_len = syscall (Sysno.to_usize Sysno.get_boot_cfg) buf buf_len 0 0

unfoldable pub sys_ipc_send : Handle → ℕ → ℕ → Option Handle → Regs
sys_ipc_send handle msg msg_len passed_cap =
    syscall (Sysno.to_usize Sysno.ipc_send) (Handle.to_usize handle) msg msg_len
      (passed_number passed_cap)

unfoldable pub sys_ipc_recv : ℕ → ℕ → ℕ → ℕ → Regs
sys_ipc_recv buf buf_len sender_pid recv_usize =
    syscall (Sysno.to_usize Sysno.ipc_recv) buf buf_len sender_pid recv_usize

unfoldable pub sys_ipc_recv_timeout : ℕ → ℕ → ℕ → ℕ → Regs
sys_ipc_recv_timeout buf buf_len meta timeout_ms =
    syscall (Sysno.to_usize Sysno.ipc_recv_timeout) buf buf_len meta timeout_ms

unfoldable pub sys_mmap : ℕ → Regs
sys_mmap len = syscall (Sysno.to_usize Sysno.mmap_anon) len 0 0 0

unfoldable pub sys_map_device : ℕ → ℕ → Regs
sys_map_device paddr len = syscall (Sysno.to_usize Sysno.map_device) paddr len 0 0

unfoldable pub sys_vmm_map_page_to : ℕ → ℕ → ℕ → Regs
sys_vmm_map_page_to target_pid vaddr size =
    syscall (Sysno.to_usize Sysno.vmm_map_page_to) target_pid vaddr size 0

unfoldable pub sys_dma_alloc : ℕ → ℕ → Regs
sys_dma_alloc len paddr_out = syscall (Sysno.to_usize Sysno.dma_alloc) len paddr_out 0 0

unfoldable pub sys_dma_dealloc : ℕ → ℕ → ℕ → Regs
sys_dma_dealloc vaddr paddr page_count =
    syscall (Sysno.to_usize Sysno.dma_dealloc) vaddr paddr page_count 0

unfoldable pub sys_virt_to_phys : ℕ → Regs
sys_virt_to_phys vaddr = syscall (Sysno.to_usize Sysno.virt_to_phys) vaddr 0 0 0

unfoldable pub sys_pci_cfg_read : ℕ → ℕ → ℕ → ℕ → Regs
sys_pci_cfg_read bus device function offset =
    syscall (Sysno.to_usize Sysno.pci_cfg_read) bus device function offset

unfoldable pub sys_sleep_ms : ℕ → Regs
sys_sleep_ms ms = syscall (Sysno.to_usize Sysno.sleep_ms) ms 0 0 0

unfoldable pub sys_uptime_ms : Regs
sys_uptime_ms = syscall (Sysno.to_usize Sysno.uptime_ms) 0 0 0 0

unfoldable pub sys_system_off : Regs
sys_system_off = syscall (Sysno.to_usize Sysno.system_off) 0 0 0 0
