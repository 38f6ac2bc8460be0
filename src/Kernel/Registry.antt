-- ===== src/Kernel/Registry.antt =====
-- kernel/mene-kernel/src/service/registry.rs: names of services and the handles bound to them.
-- The methods on `&mut self` take the array of entries and return it beside their result.
mod Table
pub mod Refines
use mene_os.Base.{
  ℕ, Bool, true, false, not, ◌&&◌, ◌||◌, Option, none, some, List, [], length, take, replicate,
  copy_front, bytes_eq, ltb, ◌==◌, if◌then◌else◌, Result, ok, err,
}
use mene_os.Base.Slots.{find_first, update_first, update_or_claim}

pub data RegistryError : Type 0 where
  invalid_name invalid_handle not_found already_exists registry_full : RegistryError

-- const MAX_SERVICES, const MAX_NAME_LEN
abbrev pub max_services : ℕ
max_services = 32

abbrev pub max_name_len : ℕ
max_name_len = 32

pub record RegistryEntry : Type 0 where
  pub in_use : Bool
  pub owner_pid : ℕ
  pub handle : ℕ
  pub name_len : ℕ
  pub name : List ℕ

-- RegistryEntry::empty
abbrev pub empty : RegistryEntry
empty = record {
  in_use = false;
  owner_pid = 0;
  handle = 0;
  name_len = 0;
  name = replicate max_name_len 0;
}

unfoldable pub matches : List ℕ → RegistryEntry → Bool
matches name e = e.in_use && (e.name_len == length name) && bytes_eq (take e.name_len e.name) name

-- The bodies of the two loops of `register`.
abbrev pub renew : ℕ → ℕ → RegistryEntry → RegistryEntry
renew owner_pid handle e = record e { owner_pid = owner_pid; handle = handle }

abbrev pub is_free : RegistryEntry → Bool
is_free e = not e.in_use

abbrev pub occupy : List ℕ → ℕ → ℕ → RegistryEntry → RegistryEntry
occupy name owner_pid handle e = record e {
  in_use = true;
  owner_pid = owner_pid;
  handle = handle;
  name_len = length name;
  name = copy_front name e.name;
}

abbrev pub is_empty : List ℕ → Bool
is_empty name = length name == 0

-- ServiceRegistry::new
abbrev pub new : List RegistryEntry
new = replicate max_services empty

abbrev pub or_full :
    List RegistryEntry
    → Option (List RegistryEntry)
    → Result RegistryError Unit × List RegistryEntry
or_full es none = (err registry_full, es)
or_full es (some fs) = (ok tt, fs)

pub register : List ℕ → ℕ → ℕ → List RegistryEntry → Result RegistryError Unit × List RegistryEntry
register name owner_pid handle es =
    if is_empty name || ltb max_name_len (length name)
    then (err invalid_name, es)
    else if handle == 0
    then (err invalid_handle, es)
    else or_full es (
        update_or_claim (matches name) (renew owner_pid handle) is_free
          (occupy name owner_pid handle) es)

abbrev pub found : Option RegistryEntry → Result RegistryError ℕ
found none = err not_found
found (some e) = ok e.handle

pub lookup : List ℕ → List RegistryEntry → Result RegistryError ℕ
lookup name es = found (find_first (matches name) es)

abbrev pub or_missing :
    List RegistryEntry
    → Option (List RegistryEntry)
    → Result RegistryError Unit × List RegistryEntry
or_missing es none = (err not_found, es)
or_missing es (some fs) = (ok tt, fs)

pub unregister : List ℕ → List RegistryEntry → Result RegistryError Unit × List RegistryEntry
unregister name es = or_missing es (update_first (matches name) (λ _. empty) es)
