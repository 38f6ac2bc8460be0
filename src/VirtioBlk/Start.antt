-- ===== src/VirtioBlk/Start.antt =====
-- apps/virtio_blk/src/main.rs, `init_backend` and `_start`: the search for a device and the loop.
pub mod Search
use mene_os.Base.{
  ℕ, zero, suc, ◌+◌, ◌*◌, Bool, true, false, not, ◌&&◌, ◌||◌, List, [], ◌∷◌, ◌++◌, Option, none,
  some, ◌==◌, if◌then◌else◌, replicate,
}
use mene_os.Abi.Handle.{Handle}
use mene_os.Ulib.World.{World}
use mene_os.Ulib.Ipc.{Received, sys_ipc_send, sys_ipc_recv}
use mene_os.Ulib.Control.{ctl_register_service, ctl_device_query_usize}
use mene_os.Abi.Blk.{max_io_bytes}
use mene_os.Init.ControlPlane.{pci_ecam_base, virtio_blk_mmio_base, virtio_blk_mmio_size}
use mene_os.VirtioBlk.Backend.{
  Driver, Backend, Disk, real_mmio, real_pci, mock, mock_block_size, mock_block_count,
}
use mene_os.VirtioBlk.Hal.{Kernel, all_ones}
use mene_os.VirtioBlk.Service.{Request, Service, serve}

abbrev pub fallback_virtio_blk_mmio_paddr : ℕ
fallback_virtio_blk_mmio_paddr = 0x0a00_0000

abbrev pub fallback_virtio_blk_mmio_size : ℕ
fallback_virtio_blk_mmio_size = 0x1000

abbrev pub fallback_pci_ecam_base : ℕ
fallback_pci_ecam_base = 0x4010_000000

abbrev pub pci_ecam_size : ℕ
pci_ecam_size = 0x1000_0000

abbrev pub pci_vendor_virtio : ℕ
pci_vendor_virtio = 0x1af4

abbrev pub pci_device_virtio_blk_legacy : ℕ
pci_device_virtio_blk_legacy = 0x1001

abbrev pub pci_device_virtio_blk_modern : ℕ
pci_device_virtio_blk_modern = 0x1042

-- "virtio_blk"
abbrev service_name : List ℕ
service_name = b'v' ∷ b'i' ∷ b'r' ∷ b't' ∷ b'i' ∷ b'o' ∷ b'_' ∷ b'b' ∷ b'l' ∷ b'k' ∷ []

-- What the code uses of `DeviceFunctionInfo` of virtio-drivers: whether `header_type` is
-- `HeaderType::Standard`, and the two numbers.
pub record DevInfo : Type 0 where
  pub is_standard : Bool
  pub vendor_id : ℕ
  pub device_id : ℕ

-- The crate virtio-drivers, over the state of the kernel: the transports with the devices behind
-- them, and the root of the PCI bus at an address. `enumerate_bus` reads only what a device says of
-- itself. `bus_access` adds IO_SPACE, MEMORY_SPACE and BUS_MASTER to a command.
pub record Devices (kernel : Kernel) (mmio pci : Driver) : Type 1 where
  pub MmioTransport : Type 0
  pub new_mmio_transport : ℕ → kernel.State → Option MmioTransport × kernel.State
  pub is_mmio_block : MmioTransport → Bool
  pub new_mmio_blk : MmioTransport → kernel.State → Option mmio.Dev × kernel.State
  pub DeviceFunction : Type 0
  pub enumerate_bus : ℕ → ℕ → List (DeviceFunction × DevInfo)
  pub Command : Type 0
  pub get_command : ℕ → DeviceFunction → kernel.State → Command
  pub bus_access : Command → Command
  pub set_command : ℕ → DeviceFunction → Command → kernel.State → kernel.State
  pub PciTransport : Type 0
  pub new_pci_transport : ℕ → DeviceFunction → kernel.State → Option PciTransport × kernel.State
  pub is_pci_block : PciTransport → Bool
  pub new_pci_blk : PciTransport → kernel.State → Option pci.Dev × kernel.State

-- The tests before the first call that changes a device.
abbrev pub is_virtio_blk : DevInfo → Bool
is_virtio_blk info =
    info.is_standard
    && (info.vendor_id == pci_vendor_virtio)
    && (info.device_id == pci_device_virtio_blk_legacy
        || info.device_id == pci_device_virtio_blk_modern)

module _ {kernel : Kernel} {mmio pci : Driver} (devices : Devices kernel mmio pci) where
  -- A transport of another type of device, or none, gives nothing.
  abbrev pub mmio_blk : Option devices.MmioTransport × kernel.State → Option mmio.Dev × kernel.State
  mmio_blk (none, s) = (none, s)
  mmio_blk (some t, s) = if devices.is_mmio_block t then devices.new_mmio_blk t s else (none, s)

  abbrev pub at_mapped : ℕ × kernel.State → Option mmio.Dev × kernel.State
  at_mapped (mapped, s) =
      if mapped == all_ones || mapped == 0
      then (none, s)
      else mmio_blk (devices.new_mmio_transport mapped s)

  unfoldable pub try_init_virtio_at : ℕ → ℕ → kernel.State → Option mmio.Dev × kernel.State
  try_init_virtio_at mmio_paddr mmio_size s =
      at_mapped (kernel.sys_map_device mmio_paddr mmio_size s)

  abbrev pub pci_blk : Option devices.PciTransport × kernel.State → Option pci.Dev × kernel.State
  pci_blk (none, s) = (none, s)
  pci_blk (some t, s) = if devices.is_pci_block t then devices.new_pci_blk t s else (none, s)

  -- The calls for one device that passes the tests.
  unfoldable pub probe : ℕ → devices.DeviceFunction → kernel.State → Option pci.Dev × kernel.State
  probe root bdf s =
      let cmd = devices.get_command root bdf s in
      pci_blk (
        devices.new_pci_transport root bdf
          (devices.set_command root bdf (devices.bus_access cmd) s))

  -- `return Some(dev)`, or the next round of a loop.
  abbrev pub or_next :
      (kernel.State → Option pci.Dev × kernel.State)
      → Option pci.Dev × kernel.State
      → Option pci.Dev × kernel.State
  or_next next (some dev, s) = (some dev, s)
  or_next next (none, s) = next s

  -- The inner loop, over the devices of a bus.
  unfoldable pub search_bus :
      ℕ → List (devices.DeviceFunction × DevInfo) → kernel.State → Option pci.Dev × kernel.State
  search_bus root [] s = (none, s)
  search_bus root ((bdf, info) ∷ found) s =
      or_next (search_bus root found) (if is_virtio_blk info then probe root bdf s else (none, s))

  -- The outer loop, from a bus on.
  unfoldable pub search_buses : ℕ → ℕ → ℕ → kernel.State → Option pci.Dev × kernel.State
  search_buses root zero bus s = (none, s)
  search_buses root (suc n) bus s =
      or_next (search_buses root n (bus + 1)) (search_bus root (devices.enumerate_bus root bus) s)

  abbrev pub in_ecam : ℕ × kernel.State → Option pci.Dev × kernel.State
  in_ecam (ecam_vaddr, s) =
      if ecam_vaddr == all_ones then (none, s) else search_buses ecam_vaddr 8 0 s

  unfoldable pub try_init_virtio_pci : ℕ → kernel.State → Option pci.Dev × kernel.State
  try_init_virtio_pci ecam_base s = in_ecam (kernel.sys_map_device ecam_base pci_ecam_size s)

  -- `unwrap_or`
  abbrev pub unwrap_or : ℕ → Option ℕ → ℕ
  unwrap_or default none = default
  unwrap_or default (some n) = n

  abbrev pub mmio_or_mock : Option mmio.Dev × kernel.State → Backend mmio pci × kernel.State
  mmio_or_mock (some dev, s) = (real_mmio dev, s)
  mmio_or_mock (none, s) = (mock, s)

  abbrev pub with_world :
      World → Backend mmio pci × kernel.State → Backend mmio pci × World × kernel.State
  with_world w (backend, s) = (backend, w, s)

  -- The fixed place of the registers, where init says or at the fallback.
  unfoldable pub init_mmio : World → kernel.State → Backend mmio pci × World × kernel.State
  init_mmio w s =
      let (base, w1) = ctl_device_query_usize virtio_blk_mmio_base w in
      let (size, w2) = ctl_device_query_usize virtio_blk_mmio_size w1 in
      with_world w2 (
        mmio_or_mock (
          try_init_virtio_at (unwrap_or fallback_virtio_blk_mmio_paddr base)
            (unwrap_or fallback_virtio_blk_mmio_size size) s))

  abbrev pub pci_or :
      (kernel.State → Backend mmio pci × World × kernel.State)
      → World
      → Option pci.Dev × kernel.State
      → Backend mmio pci × World × kernel.State
  pci_or other w (some dev, s) = (real_pci dev, w, s)
  pci_or other w (none, s) = other s

  unfoldable pub init_backend : World → kernel.State → Backend mmio pci × World × kernel.State
  init_backend w s =
      let (base, w1) = ctl_device_query_usize pci_ecam_base w in
      pci_or (init_mmio w1) w1 (try_init_virtio_pci (unwrap_or fallback_pci_ecam_base base) s)

  -- `_start` before its loop: the service registers, then looks for its device.
  unfoldable pub start : World → kernel.State → Service mmio pci × World × kernel.State
  start w s =
      let (registered, w1) = ctl_register_service service_name w in
      let (backend, w2, s1) = init_backend w1 s in
      (
        record {
          disk = record {
            backend = backend;
            mock_disk = replicate (mock_block_size * mock_block_count) 0;
          };
          io_buf = replicate max_io_bytes 0;
        },
        w2,
        s1,
      )

abbrev pub received : Received → Request
received r = record { req_len = r.len; req_buf = r.buf; reply_cap = r.recv_cap }

module _ {mmio pci : Driver} where
  abbrev pub send : World → Option (Handle × List ℕ) × Service mmio pci → World × Service mmio pci
  send w (none, s) = (w, s)
  send w (some (cap, bytes), s) = (sys_ipc_send cap bytes none w, s)

  -- A round of the loop of `_start`, and several. The calls of the driver do not change what the
  -- service sees of the kernel.
  unfoldable pub round : World × Service mmio pci → World × Service mmio pci
  round (w, s) = let (r, w1) = sys_ipc_recv w in send w1 (serve (received r) s)

  unfoldable pub rounds : ℕ → World × Service mmio pci → World × Service mmio pci
  rounds zero x = x
  rounds (suc n) x = rounds n (round x)
