-- ===== src/Kernel/Device.antt =====
-- kernel/mene-kernel/src/device/mod.rs: the devices of the device tree, the drivers that are tried
-- on them, and the capabilities that a new process starts with. A node of the tree is what the crate
-- `flat_device_tree` reads of it.
pub mod Capabilities
use mene_os.Base.{
  ℕ, zero, Bool, true, false, not, ◌&&◌, ◌||◌, List, [], ◌∷◌, ◌++◌, Option, none, some, Result, ok,
  err, length, ◌==◌, if◌then◌else◌, bytes_eq,
}
use mene_os.Base.BTreeMap.{Map, insert}
use mene_os.Base.Text.{contains}
use mene_os.Ipc.Endpoint.{Capability, endpoint}
use mene_os.Kernel.Process.{ProcessInfo}

pub data DeviceBus : Type 0 where
  platform pci_host unknown : DeviceBus

pub record MmioRegion : Type 0 where
  pub base : ℕ
  pub size : ℕ

pub record DeviceInfo : Type 0 where
  pub node_name : List ℕ
  pub bus : DeviceBus
  pub compatibles : List (List ℕ)
  pub mmio_regions : List MmioRegion
  pub interrupts : List ℕ

pub data DriverError : Type 0 where
  probe_failed : DriverError

pub record DriverRegistration : Type 0 where
  pub name : List ℕ
  pub matches : DeviceInfo → Bool
  pub probe : DeviceInfo → Result DriverError Unit

abbrev is_pci_host : DeviceBus → Bool
is_pci_host platform = false
is_pci_host pci_host = true
is_pci_host unknown = false

abbrev first_base : List MmioRegion → Option ℕ
first_base [] = none
first_base (r ∷ rs) = some r.base

unfoldable pub pci_ecam_base : List DeviceInfo → Option ℕ
pci_ecam_base [] = none
pci_ecam_base (d ∷ ds) =
    let rest = pci_ecam_base ds in if is_pci_host d.bus then first_base d.mmio_regions else rest

-- `iter().any`
abbrev any {ℓ} : {A : Type ℓ} → (A → Bool) → List A → Bool
any p [] = false
any p (x ∷ xs) = p x || any p xs

-- "pci", "simple-bus", "virtio", "virtio,mmio"
abbrev pci : List ℕ
pci = b'p' ∷ b'c' ∷ b'i' ∷ []

abbrev pcie : List ℕ
pcie = pci ++ b'e' ∷ []

abbrev simple_bus : List ℕ
simple_bus = b's' ∷ b'i' ∷ b'm' ∷ b'p' ∷ b'l' ∷ b'e' ∷ b'-' ∷ b'b' ∷ b'u' ∷ b's' ∷ []

abbrev virtio : List ℕ
virtio = b'v' ∷ b'i' ∷ b'r' ∷ b't' ∷ b'i' ∷ b'o' ∷ []

abbrev pub virtio_mmio : List ℕ
virtio_mmio = virtio ++ b',' ∷ b'm' ∷ b'm' ∷ b'i' ∷ b'o' ∷ []

unfoldable pub detect_bus : List (List ℕ) → DeviceBus
detect_bus compatibles =
    if any (λ c. contains pci c || contains pcie c) compatibles
    then pci_host
    else if any (λ c. contains simple_bus c || contains virtio_mmio c) compatibles
    then platform
    else unknown

-- A node of the device tree: its strings, and each region with its size, if there is one.
pub record FdtNode : Type 0 where
  pub name : List ℕ
  pub compatible : Option (List (List ℕ))
  pub status : Option (List ℕ)
  pub reg : List (ℕ × Option ℕ)
  pub interrupts : List ℕ

abbrev all_compatibles : Option (List (List ℕ)) → List (List ℕ)
all_compatibles none = []
all_compatibles (some c) = c

abbrev unwrap_or_zero : Option ℕ → ℕ
unwrap_or_zero none = 0
unwrap_or_zero (some n) = n

abbrev regions : List (ℕ × Option ℕ) → List MmioRegion
regions [] = []
regions ((start, size) ∷ rs) = record { base = start; size = unwrap_or_zero size } ∷ regions rs

abbrev disabled : List ℕ
disabled = b'd' ∷ b'i' ∷ b's' ∷ b'a' ∷ b'b' ∷ b'l' ∷ b'e' ∷ b'd' ∷ []

abbrev is_disabled : Option (List ℕ) → Bool
is_disabled none = false
is_disabled (some s) = bytes_eq s disabled

unfoldable pub parse_device_node : FdtNode → Option DeviceInfo
parse_device_node node =
    let compatibles = all_compatibles node.compatible in
    if length compatibles == 0
    then none
    else if is_disabled node.status
    then none
    else some (record {
      node_name = node.name;
      bus = detect_bus compatibles;
      compatibles = compatibles;
      mmio_regions = regions node.reg;
      interrupts = node.interrupts;
    })

abbrev pushed : Option DeviceInfo → List DeviceInfo → List DeviceInfo
pushed none ds = ds
pushed (some d) ds = d ∷ ds

-- The loop of `init_device_model` over the nodes.
unfoldable pub parse_nodes : List FdtNode → List DeviceInfo
parse_nodes [] = []
parse_nodes (n ∷ ns) = pushed (parse_device_node n) (parse_nodes ns)

-- "arm,pl011", "arm,sbsa-uart"
abbrev arm_pl011 : List ℕ
arm_pl011 = b'a' ∷ b'r' ∷ b'm' ∷ b',' ∷ b'p' ∷ b'l' ∷ b'0' ∷ b'1' ∷ b'1' ∷ []

abbrev arm_sbsa_uart : List ℕ
arm_sbsa_uart =
    b'a' ∷ b'r' ∷ b'm' ∷ b',' ∷ b's' ∷ b'b' ∷ b's' ∷ b'a' ∷ b'-' ∷ b'u' ∷ b'a' ∷ b'r' ∷ b't' ∷ []

-- "virtio-mmio", "pl011-uart", "generic-pci-host"
abbrev virtio_mmio_driver : List ℕ
virtio_mmio_driver = virtio ++ b'-' ∷ b'm' ∷ b'm' ∷ b'i' ∷ b'o' ∷ []

abbrev pl011_driver : List ℕ
pl011_driver = b'p' ∷ b'l' ∷ b'0' ∷ b'1' ∷ b'1' ∷ b'-' ∷ b'u' ∷ b'a' ∷ b'r' ∷ b't' ∷ []

abbrev pci_host_driver : List ℕ
pci_host_driver =
    b'g' ∷ b'e' ∷ b'n' ∷ b'e' ∷ b'r' ∷ b'i' ∷ b'c' ∷ b'-' ∷ pci
    ++ b'-' ∷ b'h' ∷ b'o' ∷ b's' ∷ b't' ∷ []

-- `register_builtin_drivers`, on the list of drivers; the probes only log.
unfoldable pub register_builtin_drivers : List DriverRegistration → List DriverRegistration
register_builtin_drivers drivers =
    drivers
    ++ record {
      name = virtio_mmio_driver;
      matches = λ dev. any (λ c. bytes_eq c virtio_mmio) dev.compatibles;
      probe = λ dev. ok tt;
    }
      ∷ record {
        name = pl011_driver;
        matches =
            λ dev. any (λ c. bytes_eq c arm_pl011 || bytes_eq c arm_sbsa_uart) dev.compatibles;
        probe = λ dev. ok tt;
      }
      ∷ record {
        name = pci_host_driver;
        matches = λ dev. is_pci_host dev.bus;
        probe = λ dev. ok tt;
      }
      ∷ []

-- The probes of one device, in their order: the driver and what it returned.
unfoldable pub probe_device :
    DeviceInfo → List DriverRegistration → List (List ℕ × Result DriverError Unit)
probe_device dev [] = []
probe_device dev (drv ∷ drvs) =
    let rest = probe_device dev drvs in
    if drv.matches dev then (drv.name, drv.probe dev) ∷ rest else rest

unfoldable pub probe_registered_drivers :
    List DeviceInfo → List DriverRegistration → List (List ℕ × Result DriverError Unit)
probe_registered_drivers [] drvs = []
probe_registered_drivers (dev ∷ devs) drvs =
    probe_device dev drvs ++ probe_registered_drivers devs drvs

-- DEVICE_LIST and DRIVER_REGISTRY
pub record DeviceModel : Type 0 where
  pub device_list : List DeviceInfo
  pub driver_registry : List DriverRegistration

-- With the nodes of the tree, if there is one; also the probes.
unfoldable pub init_device_model :
    Option (List FdtNode) → DeviceModel → DeviceModel × List (List ℕ × Result DriverError Unit)
init_device_model none d =
    (record d { driver_registry = register_builtin_drivers d.driver_registry }, [])
init_device_model (some nodes) d =
    let devices = parse_nodes nodes in
    let drivers = register_builtin_drivers d.driver_registry in
    (
      record { device_list = devices; driver_registry = drivers },
      probe_registered_drivers devices drivers,
    )

-- The process that `find` returns.
unfoldable pub find_path : List ℕ → Map ProcessInfo → Option ProcessInfo
find_path path [] = none
find_path path ((pid, p) ∷ m) =
    let rest = find_path path m in if bytes_eq p.app_path path then some p else rest

abbrev pub insert_endpoint : ℕ → Option ProcessInfo → Map Capability → Map Capability
insert_endpoint handle none cspace = cspace
insert_endpoint handle (some p) cspace = insert handle (endpoint p.local_endpoint) cspace

unfoldable pub inject_service_endpoint_by_path :
    Map ProcessInfo → List ℕ → ℕ → Map Capability → Map Capability
inject_service_endpoint_by_path ptable service_path handle cspace =
    insert_endpoint handle (find_path service_path ptable) cspace

-- "/boot/"
abbrev boot : List ℕ
boot = b'/' ∷ b'b' ∷ b'o' ∷ b'o' ∷ b't' ∷ b'/' ∷ []

abbrev pub boot_serial : List ℕ
boot_serial = boot ++ b's' ∷ b'e' ∷ b'r' ∷ b'i' ∷ b'a' ∷ b'l' ∷ []

abbrev pub boot_vmm : List ℕ
boot_vmm = boot ++ b'v' ∷ b'm' ∷ b'm' ∷ []

abbrev pub boot_fs : List ℕ
boot_fs = boot ++ b'f' ∷ b's' ∷ []

abbrev pub boot_virtio_blk : List ℕ
boot_virtio_blk = boot ++ virtio ++ b'_' ∷ b'b' ∷ b'l' ∷ b'k' ∷ []

abbrev pub has_virtio : List DeviceInfo → Bool
has_virtio devices =
    any (λ d. any (λ c. bytes_eq c virtio_mmio || contains virtio c) d.compatibles) devices

unfoldable pub inject_bootstrap_capabilities :
    List DeviceInfo → List ℕ → Map ProcessInfo → Map Capability → Map Capability
inject_bootstrap_capabilities devices app_path ptable cspace =
    let served = inject_service_endpoint_by_path ptable boot_fs 5 (
      inject_service_endpoint_by_path ptable boot_vmm 3
        (inject_service_endpoint_by_path ptable boot_serial 2 cspace)) in
    if has_virtio devices && not (bytes_eq app_path boot_serial)
    then inject_service_endpoint_by_path ptable boot_virtio_blk 4 served
    else served
