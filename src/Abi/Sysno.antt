-- ===== src/Abi/Sysno.antt =====
-- kernel/mene-abi/src/lib.rs: `MeneSysno`, the numbers of the native system calls.
use mene_os.Base.{ℕ, ◌≡◌, ◌↔◌, refl, Option, none, some, arith, ◌==◌, if◌then◌else◌}

pub data MeneSysno : Type 0 where
  spawn ipc_send ipc_recv read_file map_device vmm_map_page_to dma_alloc pci_cfg_read dma_dealloc
        virt_to_phys sleep_ms system_off get_boot_cfg spawn_elf mmap_anon ipc_recv_timeout
        uptime_ms :
      MeneSysno

-- `sysno as usize`
unfoldable pub to_usize : MeneSysno → ℕ
to_usize spawn = 500
to_usize ipc_send = 501
to_usize ipc_recv = 502
to_usize read_file = 503
to_usize map_device = 504
to_usize vmm_map_page_to = 505
to_usize dma_alloc = 506
to_usize pci_cfg_read = 507
to_usize dma_dealloc = 508
to_usize virt_to_phys = 509
to_usize sleep_ms = 510
to_usize system_off = 511
to_usize get_boot_cfg = 512
to_usize spawn_elf = 513
to_usize mmap_anon = 514
to_usize ipc_recv_timeout = 515
to_usize uptime_ms = 516

unfoldable pub try_from : ℕ → Option MeneSysno
try_from val =
    if val == 500
    then some spawn
    else if val == 501
    then some ipc_send
    else if val == 502
    then some ipc_recv
    else if val == 503
    then some read_file
    else if val == 504
    then some map_device
    else if val == 505
    then some vmm_map_page_to
    else if val == 506
    then some dma_alloc
    else if val == 507
    then some pci_cfg_read
    else if val == 508
    then some dma_dealloc
    else if val == 509
    then some virt_to_phys
    else if val == 510
    then some sleep_ms
    else if val == 511
    then some system_off
    else if val == 512
    then some get_boot_cfg
    else if val == 513
    then some spawn_elf
    else if val == 514
    then some mmap_anon
    else if val == 515
    then some ipc_recv_timeout
    else if val == 516
    then some uptime_ms
    else none

try_from-to_usize : (s : MeneSysno) → try_from (to_usize s) ≡ some s
unfolding try_from to_usize
try_from-to_usize spawn = refl
try_from-to_usize _ = refl

to_usize-try_from : (val : ℕ) (s : MeneSysno) → try_from val ≡ some s → to_usize s ≡ val
unfolding try_from to_usize
to_usize-try_from val s h = ground arith

-- `try_from` accepts exactly the numbers of the native system calls, each as its own call.
pub try_from_iff : (val : ℕ) (s : MeneSysno) → (try_from val ≡ some s) ↔ (to_usize s ≡ val)
try_from_iff val s = (to_usize-try_from val s, λ e. rw (← e) (try_from-to_usize s))
