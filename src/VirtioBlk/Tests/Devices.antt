-- ===== src/VirtioBlk/Tests/Devices.antt =====
-- Runs of the memory for the driver and of the search for a device, with a kernel whose physical
-- addresses are the virtual ones plus 0x10000.
use mene_os.Base.{
  ℕ, ◌+◌, ◌<◌, ◌≡◌, refl, true, false, [], ◌∷◌, none, some, arith, min, ltb, ◌^◌, ◌-◌, ◌==◌,
  if◌then◌else◌,
}
use mene_os.VirtioBlk.Backend.{Driver}
use mene_os.VirtioBlk.Hal.{Kernel, all_ones, share, window, mmio_phys_to_virt}
use mene_os.VirtioBlk.Hal.Share.{IsPageTable, IsMapped, Shared, share-Shared}
use mene_os.Ipc.Manager.{AxError}
use mene_os.Kernel.Memory.{Machine}
use mene_os.Kernel.Syscall.{retval}
use mene_os.Kernel.Syscall.System
use mene_os.Kernel.Tests.Boot.{machine}
use mene_os.VirtioBlk.Hal.Window.{mmio_phys_to_virt_lem}
use mene_os.VirtioBlk.Start.{Devices, try_init_virtio_pci}
use mene_os.VirtioBlk.Start.Search.{functions, Finds, try_init_virtio_pci-Finds}

-- The state is the distance of the physical addresses; a mapping starts at the address 0x5000.
abbrev kernel : Kernel
kernel = record {
  State = ℕ;
  sys_dma_alloc = λ len s. (0x8000, 0x8000 + s, s);
  sys_dma_dealloc = λ v p n s. (0, s);
  sys_map_device = λ p len s. (0x5000, 0xb000);
  sys_virt_to_phys = λ s v. min (v + s) all_ones;
}

-- A page table of 256 MiB, whose frames are 0x10000 above the pages, and a kernel that uses it.
abbrev paging : Machine
paging = record machine { query = λ v a. if ltb v 0x1000_0000 then some (v + 0x10000) else none }

paging-IsPageTable : IsPageTable paging 0
paging-IsPageTable = record {
  down = λ v. omega arith;
  offset = λ v. refl;
  frame = λ v p aligned h. ground (arith, aligned, h);
}

abbrev code : AxError → ℕ
code e = 2 ^ 64 - 14

abbrev paging_kernel : Kernel
paging_kernel = record kernel {
  sys_virt_to_phys = λ s v. retval code (System.virt_to_phys paging v 0);
}

buffer-IsMapped : IsMapped paging_kernel paging code 0 0x1ff0 0x20
buffer-IsMapped v low high =
    let page = paging.align_down_4k v in
    let small : ltb page 0x1000_0000 ≡ true = ground (arith, high) in
    (page + 0x10000, rw small refl)

-- A buffer over two pages.
share-Shared_example :
    Shared (paging_kernel.sys_virt_to_phys 0) 0x1ff0 0x20 (share paging_kernel 0x1ff0 0x20 0)
share-Shared_example =
    share-Shared paging_kernel paging code 0 0 (λ v. refl) paging-IsPageTable 0x1ff0 0x20
      buffer-IsMapped (omega arith)

-- The registers at 0x10200 lie in the page at 0x10000, which is mapped at 0x5000.
mmio_phys_to_virt_lem_example :
    (p : ℕ) × (mmio_phys_to_virt kernel 0x10200 0x200 0 ≡ (some p, 0xb000))
    × ((k : ℕ) → k < 0x200 → kernel.sys_virt_to_phys 0xb000 (p + k) ≡ 0x10200 + k)
unfolding window
mmio_phys_to_virt_lem_example =
    mmio_phys_to_virt_lem kernel 0x10200 0x200 0x5000 0 0xb000 (omega arith) refl (omega arith)
      (omega arith) (λ k h. omega (arith, h))

abbrev driver : Driver
driver = record {
  Dev = ℕ;
  capacity = λ d. 0;
  read_blocks = λ d sector out. (false, out, d);
  write_blocks = λ d sector bytes. (false, d);
  flush = λ d. (true, d);
}

-- On the bus 2 stand a network device and two block devices, the first of which does not start.
abbrev devices : Devices kernel driver driver
devices = record {
  MmioTransport = Unit;
  new_mmio_transport = λ v s. (none, s);
  is_mmio_block = λ t. false;
  new_mmio_blk = λ t s. (none, s);
  DeviceFunction = ℕ;
  enumerate_bus = λ root bus.
      if bus == 2
      then (1, record { is_standard = true; vendor_id = 0x1af4; device_id = 0x1000 })
        ∷ (2, record { is_standard = true; vendor_id = 0x1af4; device_id = 0x1001 })
        ∷ (3, record { is_standard = true; vendor_id = 0x1af4; device_id = 0x1042 })
        ∷ []
      else [];
  Command = ℕ;
  get_command = λ root bdf s. 0;
  bus_access = λ cmd. cmd + 7;
  set_command = λ root bdf cmd s. s;
  PciTransport = ℕ;
  new_pci_transport = λ root bdf s. (some bdf, s);
  is_pci_block = λ t. true;
  new_pci_blk = λ t s. (if t == 3 then some t else none, s);
}

try_init_virtio_pci-Finds_example :
    let (result, u) = try_init_virtio_pci devices 0x4010_000000 0 in
    Finds devices 0x5000 (functions devices 0x5000 8 0) 0xb000 result u
try_init_virtio_pci-Finds_example =
    try_init_virtio_pci-Finds devices 0x4010_000000 0x5000 0 0xb000 refl (omega arith)
