-- ===== src/Fs/Disk/Store.antt =====
-- Over transfers that act on an array of bytes, the reads and writes of the disk act on the array
-- at the cursor, across the boundaries of sectors.
use mene_os.Base.{
  ℕ, zero, suc, ◌+◌, ◌-◌, ◌*◌, ◌/◌, ◌%◌, ◌≤◌, ◌<◌, ◌≡◌, refl, ◌∙◌, min, true, false, ◌||◌, List, [],
  ◌++◌, Option, none, some, length, slice, copy_at, leb, ltb, ◌==◌, arith, Bool-cases, inl, inr,
}
use native.Mathlib.Nat.{div-add-mod}
use mene_os.Base.Ranges.{list_ext, get_elem?-slice, length-slice, get_elem?-append}
use mene_os.Fs.Disk.Transfer.{SectorIo, chunk, prepend, read_loop, read}

-- Transfers of whole sectors that read or write the bytes of an array of `size` bytes, on a device
-- that does not fail inside it.
pub record IsStore (io : SectorIo) (block_size size : ℕ) (contents : io.State → List ℕ)
    : Type 0 where
  pub some_bytes : 0 < block_size
  pub whole : (lba : ℕ) → lba * block_size < size → lba * block_size + block_size ≤ size
  pub sized : (s : io.State) → length (contents s) ≡ size
  pub reads :
      (lba : ℕ) (s : io.State)
      → lba * block_size < size
      → ((io.read_sector lba block_size s).0
          ≡ some (slice (lba * block_size) block_size (contents s)))
        × (contents (io.read_sector lba block_size s).1 ≡ contents s)
  pub writes :
      (lba : ℕ) (bytes : List ℕ) (s : io.State)
      → lba * block_size < size
      → length bytes ≡ block_size
      → ((io.write_sector lba bytes s).0 ≡ true)
        × (contents (io.write_sector lba bytes s).1 ≡ copy_at (lba * block_size) bytes (contents s))

pub slice-append :
    (off n m : ℕ) (xs : List ℕ)
    → off + (n + m) ≤ length xs
    → slice off (n + m) xs ≡ slice off n xs ++ slice (off + n) m xs
slice-append off n m xs h = list_ext _ _ λ i.
    rw
      (
        get_elem?-slice off (n + m) i xs,
        get_elem?-append (slice off n xs) (slice (off + n) m xs) i,
        length-slice off n xs (omega arith),
        get_elem?-slice off n i xs,
        get_elem?-slice (off + n) m (i - n) xs,
      )
      (elim (Bool-cases (ltb i n)) [
        | inl front ↦ ground (arith, front)
        | inr back ↦
            let same : off + n + (i - n) ≡ off + i = ground (arith, back) in
            rw (back, same) (ground (arith, back))
      ])

slice-slice :
    (off n base len : ℕ) (xs : List ℕ)
    → off + n ≤ len
    → slice off n (slice base len xs) ≡ slice (base + off) n xs
slice-slice off n base len xs h = list_ext _ _ λ i.
    rw
      (
        get_elem?-slice off n i (slice base len xs),
        get_elem?-slice base len (off + i) xs,
        get_elem?-slice (base + off) n i xs,
      )
      (let same : base + (off + i) ≡ base + off + i = omega arith in rw same (ground arith))

slice_zero : (off : ℕ) (xs : List ℕ) → slice off 0 xs ≡ []
unfolding slice
slice_zero off xs = refl

-- The sector under the cursor, and the bytes of one round.
module _ (b size pos len : ℕ) (some_bytes : 0 < b)
    (whole : (lba : ℕ) → lba * b < size → lba * b + b ≤ size) (before : pos < size)
    (more : 0 < len) where
  pub split_pos : pos / b * b + pos % b ≡ pos
  split_pos = grind (arith, div-add-mod pos b)

  off_lt : pos % b < b
  off_lt = grind arith

  pub lba_lt : pos / b * b < size
  lba_lt = omega (arith, split_pos)

  sector_inside : pos / b * b + b ≤ size
  sector_inside = whole (pos / b) lba_lt

  pub chunk_fits :
      (0 < chunk b size pos len)
      × (pos % b + chunk b size pos len ≤ b)
      × (chunk b size pos len ≤ len)
      × (pos + chunk b size pos len ≤ size)
  chunk_fits = omega (arith, off_lt)

module _ (io : SectorIo) (b size : ℕ) where
  prepend-some :
      (front more : List ℕ) (r : Option (List ℕ) × ℕ × io.State)
      → r.0 ≡ some more
      → prepend io b size front r ≡ (some (front ++ more), r.1, r.2)
  prepend-some front more (none, p, s) e = ground (arith, e)
  prepend-some front more (some x, p, s) e = ground (arith, e)

  read_loop-stop :
      (fuel len pos : ℕ) (s : io.State)
      → (len == 0 || leb size pos) ≡ true
      → read_loop io b size fuel len pos s ≡ (some [], pos, s)
  unfolding read_loop
  read_loop-stop zero len pos s h = refl
  read_loop-stop (suc fuel) len pos s h = rw h refl

  read_loop-round :
      (fuel len pos : ℕ) (s : io.State) (bytes : List ℕ)
      → (len == 0 || leb size pos) ≡ false
      → (io.read_sector (pos / b) b s).0 ≡ some bytes
      → read_loop io b size (suc fuel) len pos s
        ≡ prepend io b size (slice (pos % b) (chunk b size pos len) bytes) (
            read_loop io b size fuel
              (len - chunk b size pos len)
              (pos + chunk b size pos len)
              (io.read_sector (pos / b) b s).1)
  unfolding read_loop
  read_loop-round fuel len pos s bytes go e = rw (go, e) refl

module _ (io : SectorIo) (b size : ℕ) (contents : io.State → List ℕ)
    (store : IsStore io b size contents) where
  -- The result of a read of the array at `pos`.
  abbrev pub IsRead : ℕ → ℕ → io.State → Option (List ℕ) × ℕ × io.State → Type 0
  IsRead len pos s r =
      (r.0 ≡ some (slice pos (min len (size - pos)) (contents s)))
      × (r.1 ≡ pos + min len (size - pos))
      × (contents r.2 ≡ contents s)

  IsRead-stop :
      (len pos : ℕ) (s : io.State)
      → (len == 0 || leb size pos) ≡ true
      → IsRead len pos s (some [], pos, s)
  IsRead-stop len pos s stop =
      let none_left : min len (size - pos) ≡ 0 = ground (arith, stop) in
      rw (none_left, slice_zero pos (contents s)) (refl, omega arith, refl)

  IsRead-round :
      (n len pos : ℕ) (s s' : io.State) (sector : List ℕ) (r : Option (List ℕ) × ℕ × io.State)
      → (len == 0 || leb size pos) ≡ false
      → n ≡ chunk b size pos len
      → sector ≡ slice (pos / b * b) b (contents s)
      → contents s' ≡ contents s
      → IsRead (len - n) (pos + n) s' r
      → IsRead len pos s (prepend io b size (slice (pos % b) n sector) r)
  IsRead-round n len pos s s' sector r go n_is sector_is same (e, e1, e2) =
      let before : pos < size = ground (arith, go) in
      let more : 0 < len = ground (arith, go) in
      let at = split_pos b size pos len store.some_bytes store.whole before more in
      let fits = chunk_fits b size pos len store.some_bytes store.whole before more in
      let m = min (len - n) (size - (pos + n)) in
      let all : min len (size - pos) ≡ n + m = omega (arith, fits) in
      let front : slice (pos % b) n sector ≡ slice pos n (contents s) =
        rw
          (
            sector_is,
            slice-slice (pos % b) n (pos / b * b) b (contents s) (omega (arith, fits)),
            at,
          )
          refl in
      let inside : pos + (n + m) ≤ length (contents s) = rw (store.sized s) (omega (arith, fits)) in
      rw
        (
          prepend-some io b size (slice (pos % b) n sector) (slice (pos + n) m (contents s')) r e,
          all,
          front,
          same,
          slice-append pos n m (contents s) inside,
        )
        (refl, e1 ∙ omega arith, e2 ∙ same)

  read_loop-IsRead :
      (fuel len pos : ℕ) (s : io.State)
      → len ≤ fuel
      → IsRead len pos s (read_loop io b size fuel len pos s)
  read_loop-IsRead zero len pos s enough =
      rw (read_loop-stop io b size zero len pos s (ground arith))
        (IsRead-stop len pos s (ground arith))
  read_loop-IsRead (suc fuel) len pos s enough = elim (Bool-cases (len == 0 || leb size pos)) [
    | inl stop ↦
        rw (read_loop-stop io b size (suc fuel) len pos s stop) (IsRead-stop len pos s stop)
    | inr go ↦
        let n = chunk b size pos len in
        let before : pos < size = ground (arith, go) in
        let more : 0 < len = ground (arith, go) in
        let fits = chunk_fits b size pos len store.some_bytes store.whole before more in
        let (e, same) =
          store.reads (pos / b) s
            (lba_lt b size pos len store.some_bytes store.whole before more) in
        let s' = (io.read_sector (pos / b) b s).1 in
        rw (read_loop-round io b size fuel len pos s _ go e) (
          IsRead-round n len pos s s' _ _ go refl refl same
            (read_loop-IsRead fuel (len - n) (pos + n) s' (omega (arith, fits))))
  ]

  -- Reads of the array at a position of the device: a read of `len` bytes from `pos` returns the
  -- bytes of the array from `pos`, as many as are asked for or as are left, moves the position past
  -- them and leaves the array as it is, on a store of whole sectors that does not fail.
  pub read_store : (len pos : ℕ) (s : io.State) → IsRead len pos s (read io b size len pos s)
  read_store len pos s = read_loop-IsRead len len pos s (omega arith)
