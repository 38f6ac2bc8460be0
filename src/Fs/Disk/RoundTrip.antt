-- ===== src/Fs/Disk/RoundTrip.antt =====
-- What was written to the disk of apps/fs is read back, and where `seek` leaves the position.
use mene_os.Base.{
  ℕ, ◌+◌, ◌-◌, ◌≤◌, ◌≡◌, ◌⊎◌, inl, inr, refl, sym, ◌∙◌, ap, min, List, none, some, length, take,
  slice, copy_at, arith, length-take, Option-cases,
}
use mene_os.Base.Ranges.{slice-copy_at_self}
use mene_os.Fs.Disk.{Disk, SeekFrom, seek, seek_target}
use mene_os.Fs.Disk.Transfer.{SectorIo, read, write}
use mene_os.Fs.Disk.Store.{IsStore, read_store}
use mene_os.Fs.Disk.Written.{write_store}

-- After a write of a buffer at a position inside a store of whole sectors that does not fail, a
-- read of as many bytes at the same position returns the bytes of the buffer, as many as fit.
pub read-write_store :
    (io : SectorIo) (b size : ℕ) (contents : io.State → List ℕ)
    → IsStore io b size contents
    → (buf : List ℕ) (pos : ℕ) (s : io.State) → pos ≤ size
    → (read io b size (length buf) pos (write io b size buf pos s).2).0
      ≡ some (take (min (length buf) (size - pos)) buf)
read-write_store io b size contents store buf pos s inside =
    let n = min (length buf) (size - pos) in
    let (_, _, written) = write_store io b size contents store buf pos s in
    let t = (write io b size buf pos s).2 in
    let (bytes, _, _) = read_store io b size contents store (length buf) pos t in
    let len : length (take n buf) ≡ n = omega (arith, length-take n buf) in
    let room : pos + length (take n buf) ≤ length (contents s) =
      rw (len, store.sized s) (omega arith) in
    bytes
    ∙ ap some (
        ap (slice pos n) written
        ∙ ap (λ k. slice pos k (copy_at pos (take n buf) (contents s))) (sym len)
        ∙ slice-copy_at_self pos (take n buf) (contents s) room)

-- A seek returns the new position, which lies in the disk, or fails and leaves the disk as it was,
-- for any origin and offset.
pub seek_position :
    (from : SeekFrom) (d : Disk)
    → (((seek from d).0 ≡ some (seek from d).1.pos) × ((seek from d).1.pos ≤ d.size))
      ⊎ (((seek from d).0 ≡ none) × ((seek from d).1 ≡ d))
unfolding seek
seek_position from d = elim (Option-cases (seek_target from d)) [
  | inl e ↦ rw e (inr (refl, refl))
  | inr (p, e) ↦ rw e (inl (refl, omega arith))
]
