-- ===== src/VirtioBlk/Start/Search.antt =====
-- The search over the buses: which device is found, and what is called before.
use mene_os.Base.{
  ℕ, zero, suc, ◌+◌, ◌≡◌, ◌<◌, ◌⊎◌, refl, true, false, List, [], ◌∷◌, ◌++◌, Option, none, some,
  arith, ◌==◌, Bool-cases, inl, inr,
}
use mene_os.VirtioBlk.Backend.{Driver}
use mene_os.VirtioBlk.Hal.{Kernel, all_ones}
use mene_os.VirtioBlk.Start.{
  Devices, DevInfo, is_virtio_blk, pci_blk, probe, or_next, search_bus, search_buses, pci_ecam_size,
  try_init_virtio_pci,
}

-- A standard function of the vendor of virtio, with one of the two numbers of a block device.
abbrev pub IsVirtioBlk : DevInfo → Type 0
IsVirtioBlk info =
    (info.is_standard ≡ true)
    × (info.vendor_id ≡ 0x1af4)
    × ((info.device_id ≡ 0x1001) ⊎ (info.device_id ≡ 0x1042))

is_virtio_blk-true : (info : DevInfo) → is_virtio_blk info ≡ true → IsVirtioBlk info
is_virtio_blk-true info h = elim (Bool-cases (info.device_id == 0x1001)) [
  | inl legacy ↦ (ground (arith, h), ground (arith, h), inl (ground (arith, legacy)))
  | inr other ↦ (ground (arith, h), ground (arith, h), inr (ground (arith, h, other)))
]

is_virtio_blk-false : (info : DevInfo) → is_virtio_blk info ≡ false → ¬ (IsVirtioBlk info)
is_virtio_blk-false info h (standard, vendor, inl legacy) =
    ground (arith, h, standard, vendor, legacy)
is_virtio_blk-false info h (standard, vendor, inr modern) =
    ground (arith, h, standard, vendor, modern)

module _ {kernel : Kernel} {mmio pci : Driver} (devices : Devices kernel mmio pci) (root : ℕ) where
  -- The device may use its memory and the bus.
  abbrev pub enabled : devices.DeviceFunction → kernel.State → kernel.State
  enabled bdf s =
      devices.set_command root bdf (devices.bus_access (devices.get_command root bdf s)) s

  -- Its transport is that of a block device, which starts.
  pub record Starts (bdf : devices.DeviceFunction) (s : kernel.State) (dev : pci.Dev)
      (u : kernel.State) : Type 0 where
    pub transport : devices.PciTransport
    pub between : kernel.State
    pub has_transport :
        devices.new_pci_transport root bdf (enabled bdf s) ≡ (some transport, between)
    pub is_block : devices.is_pci_block transport ≡ true
    pub begins : devices.new_pci_blk transport between ≡ (some dev, u)

  -- It has no transport, or that of another type of device, or it does not start.
  pub data Fails (bdf : devices.DeviceFunction) (s u : kernel.State) : Type 0 where
    no_transport : devices.new_pci_transport root bdf (enabled bdf s) ≡ (none, u) → Fails bdf s u
    no_block :
        (transport : devices.PciTransport)
        → devices.new_pci_transport root bdf (enabled bdf s) ≡ (some transport, u)
        → devices.is_pci_block transport ≡ false
        → Fails bdf s u
    no_start :
        (transport : devices.PciTransport) (t : kernel.State)
        → devices.new_pci_transport root bdf (enabled bdf s) ≡ (some transport, t)
        → devices.is_pci_block transport ≡ true
        → devices.new_pci_blk transport t ≡ (none, u)
        → Fails bdf s u

  -- Of the devices in their order, those that are no virtio block device are passed over, and of the
  -- others the first that starts is the result.
  pub data Finds
      : List (devices.DeviceFunction × DevInfo)
        → kernel.State
        → Option pci.Dev
        → kernel.State
        → Type 0 where
    none_left : (s : kernel.State) → Finds [] s none s
    passes_over :
        {bdf : devices.DeviceFunction} {info : DevInfo}
        {found : List (devices.DeviceFunction × DevInfo)} {s u : kernel.State}
        {result : Option pci.Dev}
        → ¬ (IsVirtioBlk info)
        → Finds found s result u
        → Finds ((bdf, info) ∷ found) s result u
    goes_on :
        {bdf : devices.DeviceFunction} {info : DevInfo}
        {found : List (devices.DeviceFunction × DevInfo)} {s t u : kernel.State}
        {result : Option pci.Dev}
        → IsVirtioBlk info
        → Fails bdf s t
        → Finds found t result u
        → Finds ((bdf, info) ∷ found) s result u
    stops :
        {bdf : devices.DeviceFunction} {info : DevInfo}
        {found : List (devices.DeviceFunction × DevInfo)} {s u : kernel.State} {dev : pci.Dev}
        → IsVirtioBlk info
        → Starts bdf s dev u
        → Finds ((bdf, info) ∷ found) s (some dev) u

  -- The devices of `n` buses from `bus` on.
  abbrev pub functions : ℕ → ℕ → List (devices.DeviceFunction × DevInfo)
  functions zero bus = []
  functions (suc n) bus = devices.enumerate_bus root bus ++ functions n (bus + 1)

  -- What a result of `probe` says of the device.
  abbrev Probed : devices.DeviceFunction → kernel.State → Option pci.Dev × kernel.State → Type 0
  Probed bdf s (none, u) = Fails bdf s u
  Probed bdf s (some dev, u) = Starts bdf s dev u

  started-Probed :
      (bdf : devices.DeviceFunction) (s t : kernel.State) (transport : devices.PciTransport)
      → devices.new_pci_transport root bdf (enabled bdf s) ≡ (some transport, t)
      → devices.is_pci_block transport ≡ true
      → (x : Option pci.Dev × kernel.State) → devices.new_pci_blk transport t ≡ x
      → Probed bdf s x
  started-Probed bdf s t transport has block (none, u) e = no_start transport t has block e
  started-Probed bdf s t transport has block (some dev, u) e = record {
    transport = transport;
    between = t;
    has_transport = has;
    is_block = block;
    begins = e;
  }

  transport-Probed :
      (bdf : devices.DeviceFunction) (s : kernel.State)
      (x : Option devices.PciTransport × kernel.State)
      → devices.new_pci_transport root bdf (enabled bdf s) ≡ x
      → Probed bdf s (pci_blk devices x)
  transport-Probed bdf s (none, t) e = no_transport e
  transport-Probed bdf s (some transport, t) e =
      elim (Bool-cases (devices.is_pci_block transport)) [
        | inl block ↦
            rw block
              (started-Probed bdf s t transport e block (devices.new_pci_blk transport t) refl)
        | inr other ↦ rw other (no_block transport e other)
      ]

  probe-Probed :
      (bdf : devices.DeviceFunction) (s : kernel.State) → Probed bdf s (probe devices root bdf s)
  unfolding probe
  probe-Probed bdf s = transport-Probed bdf s _ refl

  -- A walk that goes on with other devices if it has found none.
  Finds-append :
      {found more : List (devices.DeviceFunction × DevInfo)} {s u : kernel.State}
      {result : Option pci.Dev} (f : kernel.State → Option pci.Dev × kernel.State)
      → ((t : kernel.State) → Finds more t (f t).0 (f t).1)
      → Finds found s result u
      → let x = or_next devices f (result, u) in Finds (found ++ more) s x.0 x.1
  Finds-append f later (none_left s) = later s
  Finds-append f later (passes_over differs h) = passes_over differs (Finds-append f later h)
  Finds-append f later (goes_on is fails h) = goes_on is fails (Finds-append f later h)
  Finds-append f later (stops is starts) = stops is starts

  -- A walk from a device that passes the tests.
  Probed-Finds :
      (bdf : devices.DeviceFunction) (info : DevInfo)
      (found : List (devices.DeviceFunction × DevInfo)) (s : kernel.State)
      (f : kernel.State → Option pci.Dev × kernel.State)
      → IsVirtioBlk info
      → ((t : kernel.State) → Finds found t (f t).0 (f t).1)
      → (x : Option pci.Dev × kernel.State) → Probed bdf s x
      → let y = or_next devices f x in Finds ((bdf, info) ∷ found) s y.0 y.1
  Probed-Finds bdf info found s f is later (none, t) h = goes_on is h (later t)
  Probed-Finds bdf info found s f is later (some dev, t) h = stops is h

  search_bus-Finds :
      (found : List (devices.DeviceFunction × DevInfo)) (s : kernel.State)
      → let x = search_bus devices root found s in Finds found s x.0 x.1
  unfolding search_bus
  search_bus-Finds [] s = none_left s
  search_bus-Finds ((bdf, info) ∷ found) s = elim (Bool-cases (is_virtio_blk info)) [
    | inl passes ↦ rw passes (
        Probed-Finds bdf info found s (search_bus devices root found)
          (is_virtio_blk-true info passes) (λ t. search_bus-Finds found t)
          (probe devices root bdf s) (probe-Probed bdf s))
    | inr fails ↦ rw fails (passes_over (is_virtio_blk-false info fails) (search_bus-Finds found s))
  ]

  search_buses-Finds :
      (n bus : ℕ) (s : kernel.State)
      → let x = search_buses devices root n bus s in Finds (functions n bus) s x.0 x.1
  unfolding search_buses
  search_buses-Finds zero bus s = none_left s
  search_buses-Finds (suc n) bus s =
      Finds-append (search_buses devices root n (bus + 1)) (λ t. search_buses-Finds n (bus + 1) t)
        (search_bus-Finds (devices.enumerate_bus root bus) s)

module _ {kernel : Kernel} {mmio pci : Driver} (devices : Devices kernel mmio pci) where
  -- If the kernel maps the configuration space, the nested loops over the buses 0 to 7 find the first
  -- device that starts among those that are standard functions of the vendor 0x1af4 with the number
  -- 0x1001 or 0x1042, in the order of the buses, or none if none of them starts. Each of them up to
  -- that one is enabled and tried once, and no other device is.
  pub try_init_virtio_pci-Finds :
      (ecam_base ecam_vaddr : ℕ) (s t : kernel.State)
      → kernel.sys_map_device ecam_base pci_ecam_size s ≡ (ecam_vaddr, t)
      → ecam_vaddr < all_ones
      → let (result, u) = try_init_virtio_pci devices ecam_base s in
        Finds devices ecam_vaddr (functions devices ecam_vaddr 8 0) t result u
  unfolding try_init_virtio_pci
  try_init_virtio_pci-Finds ecam_base ecam_vaddr s t maps real =
      let mapped : (ecam_vaddr == all_ones) ≡ false = ground (arith, real) in
      rw (maps, mapped) (search_buses-Finds devices ecam_vaddr 8 0 t)
