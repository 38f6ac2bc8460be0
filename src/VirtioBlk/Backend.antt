-- ===== src/VirtioBlk/Backend.antt =====
-- apps/virtio_blk/src/main.rs, `Backend`: the disk behind the block service. The driver
-- `VirtIOBlk` of the crate virtio-drivers is a parameter.

pub mod MockDisk
use mene_os.Base.{
  ℕ, ◌+◌, ◌-◌, ◌*◌, ◌%◌, ◌^◌, min, Bool, true, false, not, ◌||◌, List, [], length, ltb, ◌==◌,
  if◌then◌else◌, slice, copy_at,
}

-- SECTOR_SIZE of virtio-drivers, MOCK_BLOCK_SIZE and MOCK_BLOCK_COUNT
abbrev pub sector_size : ℕ
sector_size = 512

abbrev pub mock_block_size : ℕ
mock_block_size = sector_size

abbrev pub mock_block_count : ℕ
mock_block_count = 256

-- What the service uses of `VirtIOBlk` over one kind of transport. `read_blocks` gives the
-- buffer as it leaves it, also when it fails.
pub record Driver : Type 1 where
  pub Dev : Type 0
  pub capacity : Dev → ℕ
  pub read_blocks : Dev → ℕ → List ℕ → Bool × List ℕ × Dev
  pub write_blocks : Dev → ℕ → List ℕ → Bool × Dev
  pub flush : Dev → Bool × Dev

pub data Backend (mmio pci : Driver) : Type 0 where
  real_mmio : mmio.Dev → Backend mmio pci
  real_pci : pci.Dev → Backend mmio pci
  mock : Backend mmio pci

-- The backend with the static `MOCK_DISK` beside it.
pub record Disk (mmio pci : Driver) : Type 0 where
  pub backend : Backend mmio pci
  pub mock_disk : List ℕ

abbrev pub saturating_mul : ℕ → ℕ → ℕ
saturating_mul a b = min (a * b) (2 ^ 64 - 1)

abbrev pub saturating_add : ℕ → ℕ → ℕ
saturating_add a b = min (a + b) (2 ^ 64 - 1)

abbrev pub bad_length : List ℕ → Bool
bad_length bytes = length bytes == 0 || not (length bytes % sector_size == 0)

-- The arms of the mock backend.
abbrev pub mock_read : ℕ → List ℕ → List ℕ → Bool × List ℕ
mock_read sector out store =
    let start = saturating_mul sector mock_block_size in
    let end = saturating_add start (length out) in
    if ltb (mock_block_size * mock_block_count) end
    then (false, out)
    else (true, slice start (end - start) store)

abbrev pub mock_write : ℕ → List ℕ → List ℕ → Bool × List ℕ
mock_write sector bytes store =
    let start = saturating_mul sector mock_block_size in
    let end = saturating_add start (length bytes) in
    if ltb (mock_block_size * mock_block_count) end
    then (false, store)
    else (true, copy_at start bytes store)

module _ {mmio pci : Driver} where
  pub info : Disk mmio pci → ℕ × ℕ
  info d = elim d.backend [
    | real_mmio dev ↦ (sector_size, mmio.capacity dev)
    | real_pci dev ↦ (sector_size, pci.capacity dev)
    | mock ↦ (mock_block_size, mock_block_count)
  ]

  -- The result, and `out` and the disk as the call leaves them.
  unfoldable pub read_blocks : ℕ → List ℕ → Disk mmio pci → Bool × List ℕ × Disk mmio pci
  read_blocks sector out d = if bad_length out then (false, out, d) else elim d.backend [
    | real_mmio dev ↦
        let (done, read, dev') = mmio.read_blocks dev sector out in
        (done, read, record d { backend = real_mmio dev' })
    | real_pci dev ↦
        let (done, read, dev') = pci.read_blocks dev sector out in
        (done, read, record d { backend = real_pci dev' })
    | mock ↦ let (done, read) = mock_read sector out d.mock_disk in (done, read, d)
  ]

  unfoldable pub write_blocks : ℕ → List ℕ → Disk mmio pci → Bool × Disk mmio pci
  write_blocks sector bytes d = if bad_length bytes then (false, d) else elim d.backend [
    | real_mmio dev ↦
        let (done, dev') = mmio.write_blocks dev sector bytes in
        (done, record d { backend = real_mmio dev' })
    | real_pci dev ↦
        let (done, dev') = pci.write_blocks dev sector bytes in
        (done, record d { backend = real_pci dev' })
    | mock ↦
        let (done, store) = mock_write sector bytes d.mock_disk in
        (done, record d { mock_disk = store })
  ]

  unfoldable pub flush : Disk mmio pci → Bool × Disk mmio pci
  flush d = elim d.backend [
    | real_mmio dev ↦
        let (done, dev') = mmio.flush dev in (done, record d { backend = real_mmio dev' })
    | real_pci dev ↦
        let (done, dev') = pci.flush dev in (done, record d { backend = real_pci dev' })
    | mock ↦ (true, d)
  ]
