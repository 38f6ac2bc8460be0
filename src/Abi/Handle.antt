-- ===== src/Abi/Handle.antt =====
-- kernel/mene-abi/src/lib.rs: `Handle`, the endpoints with fixed numbers and all others.
use mene_os.Base.{ℕ, ◌<◌, ◌≡◌, ◌⊎◌, refl, arith, ◌==◌, if◌then◌else◌}

pub data Handle : Type 0 where
  local_endpoint serial_endpoint vmm_endpoint virtio_blk_endpoint fs_endpoint init_endpoint : Handle
  dynamic : ℕ → Handle

unfoldable pub to_usize : Handle → ℕ
to_usize local_endpoint = 1
to_usize serial_endpoint = 2
to_usize vmm_endpoint = 3
to_usize virtio_blk_endpoint = 4
to_usize fs_endpoint = 5
to_usize init_endpoint = 6
to_usize (dynamic v) = v

unfoldable pub from_usize : ℕ → Handle
from_usize val =
    if val == 1
    then local_endpoint
    else if val == 2
    then serial_endpoint
    else if val == 3
    then vmm_endpoint
    else if val == 4
    then virtio_blk_endpoint
    else if val == 5
    then fs_endpoint
    else if val == 6
    then init_endpoint
    else dynamic val

-- A handle that names a fixed endpoint by its own constructor.
abbrev pub IsCanonical : Handle → Type 0
IsCanonical (dynamic v) = (v ≡ 0) ⊎ (6 < v)
IsCanonical _ = Unit {0}

pub to_usize-from_usize : (val : ℕ) → to_usize (from_usize val) ≡ val
unfolding to_usize from_usize
to_usize-from_usize val = ground arith

from_usize-to_usize : (h : Handle) → IsCanonical h → from_usize (to_usize h) ≡ h
unfolding to_usize from_usize
from_usize-to_usize (dynamic v) c = ground arith
from_usize-to_usize _ c = refl

-- A number is the number of the handle that is read from it, and a handle with its canonical
-- constructor is read back from its number.
pub handle_round_trip :
    (val : ℕ) (h : Handle)
    → IsCanonical h
    → (to_usize (from_usize val) ≡ val) × (from_usize (to_usize h) ≡ h)
handle_round_trip val h c = (to_usize-from_usize val, from_usize-to_usize h c)
