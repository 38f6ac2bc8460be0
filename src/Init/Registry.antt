-- ===== src/Init/Registry.antt =====
-- apps/init/src/main.rs: `RegistrySlot` and `ServiceRegistry`. The methods on `&mut self` take the
-- array of slots and return it beside their result.
pub mod Laws
use mene_os.Base.{
  ℕ, Bool, true, false, not, ◌&&◌, ◌||◌, Option, none, some, List, length, take, replicate,
  copy_front, bytes_eq, ltb, ◌==◌, if◌then◌else◌,
}
use mene_os.Base.Slots.{find_first, update_or_claim}
use mene_os.Abi.Control.{max_service_name}

-- const MAX_SERVICES, const MAX_NAME
abbrev pub max_services : ℕ
max_services = 16

abbrev pub max_name : ℕ
max_name = max_service_name

pub record RegistrySlot : Type 0 where
  pub in_use : Bool
  pub owner_pid : ℕ
  pub cap_handle : ℕ
  pub name_len : ℕ
  pub name : List ℕ

-- RegistrySlot::empty
abbrev pub empty : RegistrySlot
empty = record {
  in_use = false;
  owner_pid = 0;
  cap_handle = 0;
  name_len = 0;
  name = replicate max_name 0;
}

unfoldable pub name_eq : List ℕ → RegistrySlot → Bool
name_eq n slot =
    slot.in_use && (slot.name_len == length n) && bytes_eq (take slot.name_len slot.name) n

-- The bodies of the two loops of `register`.
abbrev pub renew : ℕ → ℕ → RegistrySlot → RegistrySlot
renew owner_pid cap_handle slot = record slot { owner_pid = owner_pid; cap_handle = cap_handle }

abbrev pub is_free : RegistrySlot → Bool
is_free slot = not slot.in_use

abbrev pub occupy : List ℕ → ℕ → ℕ → RegistrySlot → RegistrySlot
occupy name owner_pid cap_handle slot = record slot {
  in_use = true;
  owner_pid = owner_pid;
  cap_handle = cap_handle;
  name_len = length name;
  name = copy_front name slot.name;
}

-- ServiceRegistry::new
abbrev pub new : List RegistrySlot
new = replicate max_services empty

abbrev pub or_full : List RegistrySlot → Option (List RegistrySlot) → Bool × List RegistrySlot
or_full slots none = (false, slots)
or_full slots (some filled) = (true, filled)

unfoldable pub register : List ℕ → ℕ → ℕ → List RegistrySlot → Bool × List RegistrySlot
register name owner_pid cap_handle slots =
    if length name == 0 || ltb max_name (length name) || cap_handle == 0
    then (false, slots)
    else or_full slots (
        update_or_claim (name_eq name) (renew owner_pid cap_handle) is_free
          (occupy name owner_pid cap_handle) slots)

abbrev pub handle_of_found : Option RegistrySlot → Option ℕ
handle_of_found none = none
handle_of_found (some slot) = some slot.cap_handle

unfoldable pub lookup : List ℕ → List RegistrySlot → Option ℕ
lookup name slots = handle_of_found (find_first (name_eq name) slots)
