-- ===== src/VirtioBlk/Backend/MockDisk.antt =====
-- The mock backend is an array of 256 sectors.
use mene_os.Base.{
  ℕ, ◌+◌, ◌-◌, ◌*◌, ◌%◌, ◌^◌, ◌≤◌, ◌<◌, ◌≡◌, ◌↔◌, ◌⊎◌, inl, inr, sym, ◌∙◌, min, Bool, true, false,
  List, length, ltb, slice, copy_at, arith, Bool-cases,
}
use mene_os.Base.Ranges.{slice-copy_at_self, list_ext, get_elem?-slice, get_elem?-copy_at}
use mathlib.Core.Bool.{false≢true}
use mene_os.VirtioBlk.Backend.{
  Driver, mock, Disk, mock_read, mock_write, read_blocks, write_blocks, bad_length, mock_block_size,
  mock_block_count, saturating_add, saturating_mul,
}

-- The number of bytes of the mock disk.
abbrev pub capacity : ℕ
capacity = 131072

-- A transfer of whole sectors inside the disk.
pub record Fits (sector n : ℕ) : Type 0 where
  pub some_bytes : 0 < n
  pub whole : n % 512 ≡ 0
  pub inside : sector * 512 + n ≤ capacity

slice-copy_at_apart :
    (off n start : ℕ) (src dst : List ℕ)
    → start + length src ≤ length dst
    → (off + n ≤ start) ⊎ (start + length src ≤ off)
    → slice off n (copy_at start src dst) ≡ slice off n dst
slice-copy_at_apart off n start src dst h apart = list_ext _ _ λ i.
    rw
      (
        get_elem?-slice off n i (copy_at start src dst),
        get_elem?-slice off n i dst,
        get_elem?-copy_at start (off + i) src dst h,
      )
      (ground arith)

abbrev beyond : ℕ → ℕ → Bool
beyond sector n =
    ltb (mock_block_size * mock_block_count)
      (saturating_add (saturating_mul sector mock_block_size) n)

-- The two arms, for transfers that fit and for those that do not.
mock_write_fits :
    (sector : ℕ) (bytes store : List ℕ)
    → sector * 512 + length bytes ≤ capacity
    → mock_write sector bytes store ≡ (true, copy_at (sector * 512) bytes store)
mock_write_fits sector bytes store h =
    let at : min (sector * 512) (2 ^ 64 - 1) ≡ sector * 512 = omega arith in rw at (ground arith)

mock_read_fits :
    (sector : ℕ) (out store : List ℕ)
    → sector * 512 + length out ≤ capacity
    → mock_read sector out store ≡ (true, slice (sector * 512) (length out) store)
mock_read_fits sector out store h =
    let at : min (sector * 512) (2 ^ 64 - 1) ≡ sector * 512 = omega arith in
    let till : min (sector * 512 + length out) (2 ^ 64 - 1) - sector * 512 ≡ length out =
      omega arith in
    rw (at, till) (ground arith)

module _ (mmio pci : Driver) where
  -- A disk whose backend is the mock.
  abbrev pub mock_of : List ℕ → Disk mmio pci
  mock_of store = record { backend = mock; mock_disk = store }

  pub write_mock :
      (sector : ℕ) (bytes store : List ℕ)
      → Fits sector (length bytes)
      → write_blocks sector bytes (mock_of store)
        ≡ (true, mock_of (copy_at (sector * 512) bytes store))
  unfolding write_blocks
  write_mock sector bytes store f =
      let good : bad_length bytes ≡ false = ground (arith, f.some_bytes, f.whole) in
      rw (good, mock_write_fits sector bytes store f.inside)

  pub read_mock :
      (sector : ℕ) (out store : List ℕ)
      → Fits sector (length out)
      → read_blocks sector out (mock_of store)
        ≡ (true, slice (sector * 512) (length out) store, mock_of store)
  unfolding read_blocks
  read_mock sector out store f =
      let good : bad_length out ≡ false = ground (arith, f.some_bytes, f.whole) in
      rw (good, mock_read_fits sector out store f.inside)

  -- A write that does not fit fails, and so does a read; neither changes the disk.
  refused_write :
      (sector : ℕ) (bytes store : List ℕ)
      → (write_blocks sector bytes (mock_of store)).0 ≡ false
      → (write_blocks sector bytes (mock_of store)).1 ≡ mock_of store
  unfolding write_blocks
  refused_write sector bytes store h = elim (Bool-cases (bad_length bytes)) [
    | inl bad ↦ rw bad
    | inr good ↦ elim (Bool-cases (beyond sector (length bytes))) [
      | inl out ↦ rw (good, out)
      | inr inside ↦ absurd (false≢true (sym h ∙ rw (good, inside)))
    ]
  ]

  accepted_write :
      (sector : ℕ) (bytes store : List ℕ)
      → (write_blocks sector bytes (mock_of store)).0 ≡ true
      → Fits sector (length bytes)
  unfolding write_blocks
  accepted_write sector bytes store h = elim (Bool-cases (bad_length bytes)) [
    | inl bad ↦ absurd (false≢true (sym (rw bad) ∙ h))
    | inr good ↦ elim (Bool-cases (beyond sector (length bytes))) [
      | inl out ↦ absurd (false≢true (sym (rw (good, out)) ∙ h))
      | inr inside ↦ ground arith
    ]
  ]

  -- On the mock disk a write succeeds exactly for some whole sectors inside the disk, and a write
  -- that is refused leaves the disk as it was.
  pub write_blocks_mock_iff :
      (sector : ℕ) (bytes store : List ℕ)
      → (((write_blocks sector bytes (mock_of store)).0 ≡ true) ↔ Fits sector (length bytes))
        × (((write_blocks sector bytes (mock_of store)).0 ≡ true)
            ⊎ ((write_blocks sector bytes (mock_of store)).1 ≡ mock_of store))
  write_blocks_mock_iff sector bytes store = (
    (accepted_write sector bytes store, λ f. rw (write_mock sector bytes store f)),
    elim (Bool-cases (write_blocks sector bytes (mock_of store)).0) [
      | inl accepted ↦ inl accepted
      | inr refused ↦ inr (refused_write sector bytes store refused)
    ],
  )

  -- After a write of whole sectors inside the mock disk, a read of the same range returns the
  -- bytes that were written, and a read of any range apart from it returns what it did before.
  pub read_blocks-write_blocks_mock :
      (sector : ℕ) (bytes store out : List ℕ) (elsewhere : ℕ) (other : List ℕ)
      → length store ≡ capacity
      → Fits sector (length bytes)
      → length out ≡ length bytes
      → Fits elsewhere (length other)
      → (elsewhere * 512 + length other ≤ sector * 512)
        ⊎ (sector * 512 + length bytes ≤ elsewhere * 512)
      → let d = (write_blocks sector bytes (mock_of store)).1 in
        (read_blocks sector out d ≡ (true, bytes, d))
        × (read_blocks elsewhere other d
            ≡ (true, (read_blocks elsewhere other (mock_of store)).1, d))
  read_blocks-write_blocks_mock sector bytes store out elsewhere other len f same g apart =
      rw (write_mock sector bytes store f) (
        rw (read_mock sector out (copy_at (sector * 512) bytes store) (rw same f)) (
            rw
              (same, slice-copy_at_self (sector * 512) bytes store (omega (arith, len, f.inside)))),
        rw (
          read_mock elsewhere other (copy_at (sector * 512) bytes store) g,
          read_mock elsewhere other store g,
          slice-copy_at_apart (elsewhere * 512) (length other) (sector * 512) bytes store
              (omega (arith, len, f.inside)) apart,
        ),
      )
