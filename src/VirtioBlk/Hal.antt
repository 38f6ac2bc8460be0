-- ===== src/VirtioBlk/Hal.antt =====
-- apps/virtio_blk/src/main.rs, `UserVirtHal`: memory for the driver of the crate virtio-drivers. The
-- kernel behind the system calls is a parameter.
pub mod Share
pub mod Window
use mene_os.Base.{
  ℕ, zero, suc, ◌+◌, ◌-◌, ◌*◌, ◌/◌, ◌%◌, ◌^◌, min, max, Bool, ◌||◌, not, Option, none, some, ltb,
  ◌==◌, if◌then◌else◌,
}
use mene_os.Base.Int.{pos, negsuc, ℤ}

-- PAGE_SIZE of virtio-drivers
abbrev pub page_size : ℕ
page_size = 4096

-- `!0`
abbrev pub all_ones : ℕ
all_ones = 2 ^ 64 - 1

-- `n & PAGE_MASK` and `n & !PAGE_MASK`, where PAGE_MASK is `PAGE_SIZE - 1`
abbrev pub in_page : ℕ → ℕ
in_page n = n % page_size

abbrev pub page_of : ℕ → ℕ
page_of n = n - n % page_size

-- The results of the calls of ulib that need the kernel, and the kernel after them.
-- `sys_dma_alloc` gives the virtual and the physical address.
pub record Kernel : Type 1 where
  pub State : Type 0
  pub sys_dma_alloc : ℕ → State → ℕ × ℕ × State
  pub sys_dma_dealloc : ℕ → ℕ → ℕ → State → ℕ × State
  pub sys_map_device : ℕ → ℕ → State → ℕ × State
  pub sys_virt_to_phys : State → ℕ → ℕ

-- `NonNull::new(address as *mut u8).unwrap_or(NonNull::dangling())`, `none` for the latter.
abbrev pub non_null : ℕ → Option ℕ
non_null address = if address == 0 then none else some address

abbrev pub allocated : {S : Type 0} → ℕ × ℕ × S → ℕ × Option ℕ × S
allocated (vaddr, paddr, s) =
    if vaddr == all_ones || paddr == 0 then (0, none, s) else (paddr, non_null vaddr, s)

abbrev pub status : {S : Type 0} → ℕ × S → ℤ × S
status (ret, s) = (if ret == 0 then pos 0 else negsuc 0, s)

-- The pages that `mmio_phys_to_virt` asks for: their address and their length. The sums wrap as in
-- a release build.
unfoldable pub window : ℕ → ℕ → ℕ × ℕ
window paddr size =
    let off = in_page paddr in
    let need = min (off + max size 1) all_ones in
    (page_of paddr, page_of ((need + (page_size - 1)) % 2 ^ 64))

abbrev pub mapped_at : {S : Type 0} → ℕ → ℕ × S → Option ℕ × S
mapped_at off (mapped, s) =
    (if mapped == all_ones then none else non_null ((mapped + off) % 2 ^ 64), s)

-- The loop of `share` behind `covered`, for a buffer of `len` bytes at `vaddr`; `none` if the fuel
-- runs out.
unfoldable pub share_loop : (ℕ → ℕ) → ℕ → ℕ → ℕ → ℕ → ℕ → Option ℕ
share_loop virt_to_phys vaddr len first zero covered = none
share_loop virt_to_phys vaddr len first (suc fuel) covered =
    let cur = virt_to_phys (vaddr + covered) in
    let rest =
      share_loop virt_to_phys vaddr len first fuel (covered + min (len - covered) page_size) in
    if ltb covered len
    then if cur == all_ones || not (page_of cur == page_of (first + covered)) then some 0 else rest
    else some first

-- The loop has fuel for one more round than the buffer has bytes.
unfoldable pub share_at : (ℕ → ℕ) → ℕ → ℕ → Option ℕ
share_at virt_to_phys vaddr len =
    let first = virt_to_phys vaddr in
    if len == 0
    then some 0
    else if first == all_ones
    then some 0
    else share_loop virt_to_phys vaddr len first (suc len) (min len (page_size - in_page vaddr))

module _ (kernel : Kernel) where
  pub dma_alloc : ℕ → kernel.State → ℕ × Option ℕ × kernel.State
  dma_alloc pages s =
      if pages == 0
      then (0, none, s)
      else allocated (kernel.sys_dma_alloc (min (pages * page_size) all_ones) s)

  pub dma_dealloc : ℕ → ℕ → ℕ → kernel.State → ℤ × kernel.State
  dma_dealloc paddr vaddr pages s = status (kernel.sys_dma_dealloc vaddr paddr pages s)

  unfoldable pub mmio_phys_to_virt : ℕ → ℕ → kernel.State → Option ℕ × kernel.State
  mmio_phys_to_virt paddr size s =
      let (base, map_size) = window paddr size in
      mapped_at (in_page paddr) (kernel.sys_map_device base map_size s)

  unfoldable pub share : ℕ → ℕ → kernel.State → Option ℕ
  share vaddr len s = share_at (kernel.sys_virt_to_phys s) vaddr len
