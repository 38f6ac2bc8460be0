-- ===== src/Fs/Disk/Transfer.antt =====
-- apps/fs/src/main.rs: `read` and `write` of `VirtioBlkDisk`, over any transfers of sectors.
use mene_os.Base.{
  ℕ, zero, suc, ◌+◌, ◌-◌, ◌/◌, ◌%◌, min, Bool, ◌||◌, List, [], ◌++◌, Option, none, some, length,
  take, drop, slice, copy_at, leb, ◌==◌, if◌then◌else◌,
}

-- A read of `n` bytes from a sector, `none` if it fails, and a write.
pub record SectorIo : Type 1 where
  pub State : Type 0
  pub read_sector : ℕ → ℕ → State → Option (List ℕ) × State
  pub write_sector : ℕ → List ℕ → State → Bool × State

-- How many bytes one round moves.
abbrev pub chunk : ℕ → ℕ → ℕ → ℕ → ℕ
chunk block_size size pos len = min (min (block_size - pos % block_size) len) (size - pos)

module _ (io : SectorIo) (block_size size : ℕ) where
  -- The bytes that were read, `none` for an error, the position and the state.
  abbrev pub prepend : List ℕ → Option (List ℕ) × ℕ × io.State → Option (List ℕ) × ℕ × io.State
  prepend bytes (none, pos, s) = (none, pos, s)
  prepend bytes (some more, pos, s) = (some (bytes ++ more), pos, s)

  unfoldable pub read_loop : ℕ → ℕ → ℕ → io.State → Option (List ℕ) × ℕ × io.State
  read_loop zero len pos s = (some [], pos, s)
  read_loop (suc fuel) len pos s =
      let n = chunk block_size size pos len in
      let (sector, s') = io.read_sector (pos / block_size) block_size s in
      let rest = read_loop fuel (len - n) (pos + n) s' in
      if len == 0 || leb size pos then (some [], pos, s) else elim sector [
        | none ↦ (none, pos, s')
        | some bytes ↦ prepend (slice (pos % block_size) n bytes) rest
      ]

  -- The number of bytes written, `none` for an error, the position and the state.
  abbrev pub add_done : ℕ → Option ℕ × ℕ × io.State → Option ℕ × ℕ × io.State
  add_done n (none, pos, s) = (none, pos, s)
  add_done n (some m, pos, s) = (some (n + m), pos, s)

  unfoldable pub write_loop : ℕ → List ℕ → ℕ → io.State → Option ℕ × ℕ × io.State
  write_loop zero buf pos s = (some 0, pos, s)
  write_loop (suc fuel) buf pos s =
      let n = chunk block_size size pos (length buf) in
      let (sector, s') = io.read_sector (pos / block_size) block_size s in
      if length buf == 0 || leb size pos then (some 0, pos, s) else elim sector [
        | none ↦ (none, pos, s')
        | some bytes ↦
            let patched = copy_at (pos % block_size) (take n buf) bytes in
            let (done, t) = io.write_sector (pos / block_size) patched s' in
            let rest = write_loop fuel (drop n buf) (pos + n) t in
            if done then add_done n rest else (none, pos, t)
      ]

  -- `read` and `write` of the disk at a position.
  abbrev pub read : ℕ → ℕ → io.State → Option (List ℕ) × ℕ × io.State
  read len pos s = read_loop len len pos s

  abbrev pub write : List ℕ → ℕ → io.State → Option ℕ × ℕ × io.State
  write buf pos s = write_loop (length buf) buf pos s
