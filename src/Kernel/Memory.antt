-- ===== src/Kernel/Memory.antt =====
-- kernel/mene-memory/src/mmap.rs: mappings of a process and memory for devices. The crates `axmm`,
-- `axalloc`, `axhal` and `memory_addr` are parameters.
pub mod Dma
use mene_os.Base.{
  ℕ, zero, ◌+◌, ◌-◌, ◌*◌, ◌/◌, ◌^◌, min, max, Bool, true, false, List, [], ◌∷◌, Option, none, some,
  ltb, ◌==◌, if◌then◌else◌,
}

-- The flags of `MappingFlags` that the kernel sets.
pub data MappingFlag : Type 0 where
  user read write execute device : MappingFlag

-- Address spaces, the allocator of pages and the two ways between kernel addresses and physical
-- ones. A call returns whether it succeeds; `find_free_area` takes the hint, the size and the limits.
pub record Machine : Type 1 where
  pub AddrSpace : Type 0
  pub Pages : Type 0
  pub align_up_4k : ℕ → ℕ
  pub align_down_4k : ℕ → ℕ
  pub align_offset_4k : ℕ → ℕ
  pub new_user_aspace : ℕ → ℕ → Option AddrSpace
  pub find_free_area : ℕ → ℕ → ℕ → ℕ → AddrSpace → Option ℕ
  pub map_alloc : ℕ → ℕ → List MappingFlag → AddrSpace → Bool × AddrSpace
  pub map_linear : ℕ → ℕ → ℕ → List MappingFlag → AddrSpace → Bool × AddrSpace
  pub unmap : ℕ → ℕ → AddrSpace → Bool × AddrSpace
  pub write : ℕ → List ℕ → AddrSpace → Bool × AddrSpace
  pub query : ℕ → AddrSpace → Option ℕ
  pub alloc_pages : ℕ → Pages → Option ℕ × Pages
  pub dealloc_pages : ℕ → ℕ → Pages → Pages
  pub virt_to_phys : ℕ → ℕ
  pub phys_to_virt : ℕ → ℕ

-- kernel/mene-config/src/aarch64.rs
abbrev pub user_space_base : ℕ
user_space_base = 0x1000

abbrev pub user_space_size : ℕ
user_space_size = 0x7fff_ffff_f000

abbrev pub user_stack_top : ℕ
user_stack_top = 0x7fff_0000_0000

abbrev pub user_stack_size : ℕ
user_stack_size = 0x8_0000

-- `!0`, for MAP_FAILED
abbrev pub map_failed : ℕ
map_failed = 2 ^ 64 - 1

abbrev pub page_size_4k : ℕ
page_size_4k = 4096

abbrev pub mmap_flags : List MappingFlag
mmap_flags = user ∷ read ∷ write ∷ []

abbrev pub device_flags : List MappingFlag
device_flags = user ∷ read ∷ write ∷ device ∷ []

abbrev pub or_failed {ℓ} : {A : Type ℓ} → ℕ → Bool × A → ℕ × A
or_failed vaddr (true, a) = (vaddr, a)
or_failed vaddr (false, a) = (map_failed, a)

module _ (m : Machine) where
  abbrev pub free_area : ℕ → ℕ → m.AddrSpace → Option ℕ
  free_area hint size a =
      m.find_free_area hint size user_space_base (user_stack_top - user_stack_size) a

  abbrev pub map_at : Option ℕ → ℕ → m.AddrSpace → ℕ × m.AddrSpace
  map_at none size a = (map_failed, a)
  map_at (some vaddr) size a = or_failed vaddr (m.map_alloc vaddr size mmap_flags a)

  unfoldable pub do_mmap : ℕ → ℕ → m.AddrSpace → ℕ × m.AddrSpace
  do_mmap addr length a =
      let size = m.align_up_4k length in map_at (free_area (max addr 0x4000_0000) size a) size a

  unfoldable pub do_map_device : ℕ → ℕ → m.AddrSpace → ℕ × m.AddrSpace
  do_map_device paddr length a =
      or_failed paddr (m.map_linear paddr paddr (m.align_up_4k length) device_flags a)

  -- The address space and the pages.
  abbrev pub Space : Type 0
  Space = m.AddrSpace × m.Pages

  -- After `map_linear`; the pages go back if it failed.
  abbrev pub dma_mapped : ℕ → ℕ → ℕ → m.Pages → Bool × m.AddrSpace → Option (ℕ × ℕ) × Space
  dma_mapped kern_vaddr num_pages user_vaddr pages (true, a) =
      (some (user_vaddr, m.virt_to_phys kern_vaddr), (a, pages))
  dma_mapped kern_vaddr num_pages user_vaddr pages (false, a) =
      (none, (a, m.dealloc_pages kern_vaddr num_pages pages))

  abbrev pub dma_placed : ℕ → ℕ → ℕ → Option ℕ → m.AddrSpace → m.Pages → Option (ℕ × ℕ) × Space
  dma_placed size kern_vaddr num_pages none a pages =
      (none, (a, m.dealloc_pages kern_vaddr num_pages pages))
  dma_placed size kern_vaddr num_pages (some user_vaddr) a pages =
      dma_mapped kern_vaddr num_pages user_vaddr pages
        (m.map_linear user_vaddr (m.virt_to_phys kern_vaddr) size mmap_flags a)

  abbrev pub dma_allocated : ℕ → ℕ → m.AddrSpace → Option ℕ × m.Pages → Option (ℕ × ℕ) × Space
  dma_allocated size num_pages a (none, pages) = (none, (a, pages))
  dma_allocated size num_pages a (some kern_vaddr, pages) =
      dma_placed size kern_vaddr num_pages (free_area 0x4000_0000 size a) a pages

  unfoldable pub do_dma_alloc : ℕ → Space → Option (ℕ × ℕ) × Space
  do_dma_alloc length (a, pages) =
      let size = m.align_up_4k length in
      let num_pages = size / page_size_4k in
      if length == 0
      then (none, (a, pages))
      else dma_allocated size num_pages a (m.alloc_pages num_pages pages)

  abbrev pub saturating_mul : ℕ → ℕ → ℕ
  saturating_mul a b = min (a * b) (2 ^ 64 - 1)

  abbrev pub dma_unmapped : ℕ → ℕ → m.Pages → Bool × m.AddrSpace → Bool × Space
  dma_unmapped paddr num_pages pages (false, a) = (false, (a, pages))
  dma_unmapped paddr num_pages pages (true, a) =
      (true, (a, m.dealloc_pages (m.phys_to_virt paddr) num_pages pages))

  unfoldable pub do_dma_dealloc : ℕ → ℕ → ℕ → Space → Bool × Space
  do_dma_dealloc user_vaddr paddr num_pages (a, pages) =
      let size = saturating_mul num_pages page_size_4k in
      if num_pages == 0
      then (true, (a, pages))
      else if size == 0
      then (false, (a, pages))
      else dma_unmapped paddr num_pages pages (m.unmap user_vaddr size a)

  abbrev plus_offset : ℕ → Option ℕ → Option ℕ
  plus_offset off none = none
  plus_offset off (some paddr) = some (paddr + off)

  unfoldable pub do_virt_to_phys : ℕ → m.AddrSpace → Option ℕ
  do_virt_to_phys user_vaddr a =
      plus_offset (m.align_offset_4k user_vaddr) (m.query (m.align_down_4k user_vaddr) a)
