-- ===== src/Fs/Disk/Written.antt =====
-- Over transfers that act on an array of bytes, a write of the disk replaces the bytes of the array
-- at the cursor, across the boundaries of sectors.
use mene_os.Base.{
  ℕ, zero, suc, ◌+◌, ◌-◌, ◌*◌, ◌/◌, ◌%◌, ◌≤◌, ◌<◌, ◌≡◌, refl, ◌∙◌, min, Bool, true, false, ◌||◌,
  List, [], ◌++◌, Option, none, some, length, take, drop, slice, copy_at, leb, ◌==◌, arith,
  Bool-cases, inl, inr, length-take, length-drop, take-append-drop, sym, ap, ◌∷◌, ap, ◌∷◌,
}
use mene_os.Base.Ranges.{length-slice, length-copy_at, copy_at-copy_at, copy_at-slice}
use mene_os.Fs.Disk.Transfer.{SectorIo, chunk, add_done, write_loop, write}
use mene_os.Fs.Disk.Store.{IsStore, split_pos, lba_lt, chunk_fits}

module _ (io : SectorIo) (b size : ℕ) where
  add_done-some :
      (n m : ℕ) (r : Option ℕ × ℕ × io.State)
      → r.0 ≡ some m
      → add_done io b size n r ≡ (some (n + m), r.1, r.2)
  add_done-some n m (none, p, s) e = ground (arith, e)
  add_done-some n m (some x, p, s) e = ground (arith, e)

  write_loop-stop :
      (fuel : ℕ) (buf : List ℕ) (pos : ℕ) (s : io.State)
      → (length buf == 0 || leb size pos) ≡ true
      → write_loop io b size fuel buf pos s ≡ (some 0, pos, s)
  unfolding write_loop
  write_loop-stop zero buf pos s h = refl
  write_loop-stop (suc fuel) buf pos s h = rw h refl

  -- The sector after the bytes of one round are put in.
  abbrev patch : List ℕ → ℕ → List ℕ → List ℕ
  patch buf pos bytes = copy_at (pos % b) (take (chunk b size pos (length buf)) buf) bytes

  abbrev after_write : List ℕ → ℕ → io.State → List ℕ → Bool × io.State
  after_write buf pos s bytes =
      io.write_sector (pos / b) (patch buf pos bytes) (io.read_sector (pos / b) b s).1

  write_loop-round :
      (fuel : ℕ) (buf : List ℕ) (pos : ℕ) (s : io.State) (bytes : List ℕ)
      → (length buf == 0 || leb size pos) ≡ false
      → (io.read_sector (pos / b) b s).0 ≡ some bytes
      → (after_write buf pos s bytes).0 ≡ true
      → write_loop io b size (suc fuel) buf pos s
        ≡ add_done io b size (chunk b size pos (length buf)) (
            write_loop io b size fuel
              (drop (chunk b size pos (length buf)) buf)
              (pos + chunk b size pos (length buf))
              (after_write buf pos s bytes).1)
  unfolding write_loop
  write_loop-round fuel buf pos s bytes go e done = rw (go, e, done) refl

copy_at_nil : (off : ℕ) (xs : List ℕ) → copy_at off [] xs ≡ xs
unfolding copy_at
copy_at_nil off xs = let same : off + 0 ≡ off = omega arith in rw same (take-append-drop off xs)

take-more :
    (n m : ℕ) (xs : List ℕ) → n + m ≤ length xs → take n xs ++ take m (drop n xs) ≡ take (n + m) xs
take-more zero m xs h = let same : 0 + m ≡ m = omega arith in rw same refl
take-more (suc n) m [] h = absurd (omega arith)
take-more (suc n) m (x ∷ xs) h =
    let same : suc n + m ≡ suc (n + m) = omega arith in
    rw (same, take-more n m xs (omega arith)) refl

module _ (io : SectorIo) (b size : ℕ) (contents : io.State → List ℕ)
    (store : IsStore io b size contents) where
  -- The result of a write to the array at `pos`.
  abbrev pub IsWritten : List ℕ → ℕ → io.State → Option ℕ × ℕ × io.State → Type 0
  IsWritten buf pos s r =
      (r.0 ≡ some (min (length buf) (size - pos)))
      × (r.1 ≡ pos + min (length buf) (size - pos))
      × (contents r.2 ≡ copy_at pos (take (min (length buf) (size - pos)) buf) (contents s))

  IsWritten-stop :
      (buf : List ℕ) (pos : ℕ) (s : io.State)
      → (length buf == 0 || leb size pos) ≡ true
      → IsWritten buf pos s (some 0, pos, s)
  IsWritten-stop buf pos s stop =
      let none_left : min (length buf) (size - pos) ≡ 0 = ground (arith, stop) in
      rw (none_left, copy_at_nil pos (contents s)) (refl, omega arith, refl)

  IsWritten-round :
      (n : ℕ) (buf : List ℕ) (pos : ℕ) (s t : io.State) (r : Option ℕ × ℕ × io.State)
      → (length buf == 0 || leb size pos) ≡ false
      → n ≡ chunk b size pos (length buf)
      → contents t ≡ copy_at pos (take n buf) (contents s)
      → IsWritten (drop n buf) (pos + n) t r
      → IsWritten buf pos s (add_done io b size n r)
  IsWritten-round n buf pos s t r go n_is patched (e, e1, e2) =
      let before : pos < size = ground (arith, go) in
      let more : 0 < length buf = ground (arith, go) in
      let fits = chunk_fits b size pos (length buf) store.some_bytes store.whole before more in
      let left : length (drop n buf) ≡ length buf - n = length-drop n buf in
      let m = min (length (drop n buf)) (size - (pos + n)) in
      let all : min (length buf) (size - pos) ≡ n + m = omega (arith, fits, left) in
      let len : length (take n buf) ≡ n = omega (arith, length-take n buf, fits) in
      let len_m : length (take m (drop n buf)) ≡ m = omega (arith, length-take m (drop n buf)) in
      let joined =
        copy_at-copy_at pos (take n buf) (take m (drop n buf)) (contents s)
          (rw (len, len_m, store.sized s) (omega (arith, fits))) in
      rw (add_done-some io b size n m r e, all)
        (
          refl,
          e1 ∙ omega arith,
          e2
              ∙ rw patched (
                  sym (
                    ap
                      (λ k.
                        copy_at (pos + k) (take m (drop n buf))
                          (copy_at pos (take n buf) (contents s)))
                      len)
                  ∙ joined
                  ∙ ap (λ xs. copy_at pos xs (contents s))
                      (take-more n m buf (omega (arith, fits, left)))),
        )

  patched_sector :
      (buf : List ℕ) (pos : ℕ) (s : io.State) (sector : List ℕ)
      → (length buf == 0 || leb size pos) ≡ false
      → sector ≡ slice (pos / b * b) b (contents s)
      → (length (patch io b size buf pos sector) ≡ b)
        × (copy_at (pos / b * b) (patch io b size buf pos sector) (contents s)
            ≡ copy_at pos (take (chunk b size pos (length buf)) buf) (contents s))
  patched_sector buf pos s sector go sector_is =
      let before : pos < size = ground (arith, go) in
      let more : 0 < length buf = ground (arith, go) in
      let at = split_pos b size pos (length buf) store.some_bytes store.whole before more in
      let fits = chunk_fits b size pos (length buf) store.some_bytes store.whole before more in
      let inside =
        store.whole (pos / b)
          (lba_lt b size pos (length buf) store.some_bytes store.whole before more) in
      let n = chunk b size pos (length buf) in
      let len : length (take n buf) ≡ n = omega (arith, length-take n buf, fits) in
      let part : length (slice (pos / b * b) b (contents s)) ≡ b =
        length-slice (pos / b * b) b (contents s) (rw (store.sized s) inside) in
      let room : pos % b + length (take n buf) ≤ b = rw len (omega (arith, fits)) in
      rw sector_is (
        length-copy_at (pos % b) (take n buf) (slice (pos / b * b) b (contents s)) (rw part room)
            ∙ part,
        copy_at-slice (pos / b * b) b (pos % b) (take n buf) (contents s) room
              (rw (store.sized s) inside)
            ∙ rw at refl,
      )

  write_loop-IsWritten :
      (fuel : ℕ) (buf : List ℕ) (pos : ℕ) (s : io.State)
      → length buf ≤ fuel
      → IsWritten buf pos s (write_loop io b size fuel buf pos s)
  write_loop-IsWritten zero buf pos s enough =
      rw (write_loop-stop io b size zero buf pos s (ground arith))
        (IsWritten-stop buf pos s (ground arith))
  write_loop-IsWritten (suc fuel) buf pos s enough =
      elim (Bool-cases (length buf == 0 || leb size pos)) [
        | inl stop ↦
            rw (write_loop-stop io b size (suc fuel) buf pos s stop) (IsWritten-stop buf pos s stop)
        | inr go ↦
            let n = chunk b size pos (length buf) in
            let before : pos < size = ground (arith, go) in
            let more : 0 < length buf = ground (arith, go) in
            let fits =
              chunk_fits b size pos (length buf) store.some_bytes store.whole before more in
            let lt = lba_lt b size pos (length buf) store.some_bytes store.whole before more in
            let (e, same) = store.reads (pos / b) s lt in
            let s' = (io.read_sector (pos / b) b s).1 in
            let sector = slice (pos / b * b) b (contents s) in
            let (len, patched) = patched_sector buf pos s sector go refl in
            let (done, stored) =
              store.writes (pos / b) (patch io b size buf pos sector) s' lt len in
            let t = (io.write_sector (pos / b) (patch io b size buf pos sector) s').1 in
            rw (write_loop-round io b size fuel buf pos s sector go e done) (
              IsWritten-round n buf pos s t _ go refl (stored ∙ rw same patched) (
                write_loop-IsWritten fuel (drop n buf) (pos + n) t
                  (omega (arith, fits, length-drop n buf))))
      ]

  -- Writes of the array at a position of the device: a write of a buffer at `pos` writes as many
  -- of its bytes as are left from `pos`, replaces just these bytes of the array, moves the position
  -- past them and returns their number, on a store of whole sectors that does not fail.
  pub write_store :
      (buf : List ℕ) (pos : ℕ) (s : io.State) → IsWritten buf pos s (write io b size buf pos s)
  write_store buf pos s = write_loop-IsWritten (length buf) buf pos s (omega arith)
