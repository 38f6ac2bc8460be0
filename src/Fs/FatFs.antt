-- ===== src/Fs/FatFs.antt =====
-- The crate `axfatfs`, as far as apps/fs/src/main.rs uses it: a parameter, and what the service
-- relies on.
use mene_os.Base.{
  ℕ, zero, ◌+◌, ◌-◌, ◌%◌, ◌≡◌, ◌≤◌, min, Bool, true, false, List, [], Option, none, some, length,
  take, drop, if◌then◌else◌,
}
use mene_os.Base.Int.{pos}
use mene_os.Fs.BlkCall.{Client}
use mene_os.Fs.Disk.{Disk, SeekFrom, start, end}

-- A mounted file system and its open files. Each call may send requests to the block service, so it
-- takes and returns what the service sees of the kernel; a read returns the bytes that it put into a
-- buffer of the given length, and `close` is what dropping a file does. Paths are looked up
-- from `root_dir`, which the calls include.
pub record FatFs : Type 1 where
  pub Fs : Type 0
  pub File : Type 0
  pub new : Disk → Client → Option Fs × Client
  pub open_file : List ℕ → Fs × Client → Option File × (Fs × Client)
  pub create_file : List ℕ → Fs × Client → Option File × (Fs × Client)
  pub remove : List ℕ → Fs × Client → Bool × (Fs × Client)
  pub seek : SeekFrom → File → Fs × Client → Option ℕ × File × (Fs × Client)
  pub truncate : File → Fs × Client → Bool × File × (Fs × Client)
  pub write : List ℕ → File → Fs × Client → Option ℕ × File × (Fs × Client)
  pub flush : File → Fs × Client → Bool × File × (Fs × Client)
  pub read : ℕ → File → Fs × Client → Option (List ℕ) × File × (Fs × Client)
  pub close : File → Fs × Client → Fs × Client

abbrev pub State : FatFs → Type 0
State fat = fat.Fs × Client

-- How a volume is looked at: the bytes of a file by its path, which paths are legal and which name
-- the same file whatever else is on the volume, and the path and the cursor of an open file. A path is
-- plain if it names no directory and no part of it has a '~', so that it is not a short name that the
-- volume made up for a file with a long one. A path is legal if a file can be created at it, for
-- which its directory has to be there.
pub record View (fat : FatFs) : Type 0 where
  pub content : fat.Fs → List ℕ → Option (List ℕ)
  pub is_plain : List ℕ → Bool
  pub is_legal : List ℕ → Bool
  pub same_file : List ℕ → List ℕ → Bool
  pub name : fat.File → List ℕ
  pub at : fat.File → ℕ
  pub cluster : ℕ

module _ (fat : FatFs) (view : View fat) where
  -- No file changes from `s` to `t`.
  abbrev pub Same : State fat → State fat → Type 0
  Same s t = (q : List ℕ) → view.content t.0 q ≡ view.content s.0 q

  -- The file at `p` becomes `v`, and no other changes, as plain paths show it.
  abbrev pub Becomes : List ℕ → Option (List ℕ) → State fat → State fat → Type 0
  Becomes p v s t =
      (q : List ℕ)
      → view.is_plain q ≡ true
      → view.content t.0 q ≡ (if view.same_file q p then v else view.content s.0 q)

  -- The file is open at `p` with its cursor at `k`.
  pub record IsOpen (file : fat.File) (p : List ℕ) (k : ℕ) : Type 0 where
    pub named : view.name file ≡ p
    pub placed : view.at file ≡ k

  abbrev pub chunk : ℕ → ℕ → List ℕ → List ℕ
  chunk n k bytes = take (min n (view.cluster - k % view.cluster)) (drop k bytes)

  -- A volume that has room and whose transfers do not fail. A read and a write stop at the end of a
  -- cluster; a call that changes a file is given a plain path. The removal of a directory, which
  -- succeeds if it is empty, and of a file by its short name are not spoken of.
  pub record IsVolume : Type 0 where
    pub big : 512 ≤ view.cluster
    pub reflexive : (p : List ℕ) → view.same_file p p ≡ true
    pub shared :
        (q p : List ℕ) (fs : fat.Fs)
        → view.same_file q p ≡ true
        → view.content fs q ≡ view.content fs p
    pub opens :
        (p bytes : List ℕ) (s : State fat)
        → view.content s.0 p ≡ some bytes
        → (f : fat.File) × (t : State fat) × (fat.open_file p s ≡ (some f, t))
          × IsOpen f p 0
          × Same s t
    pub misses :
        (p : List ℕ) (s : State fat)
        → view.content s.0 p ≡ none
        → (t : State fat) × (fat.open_file p s ≡ (none, t)) × Same s t
    pub creates :
        (p : List ℕ) (s : State fat)
        → view.is_plain p ≡ true
        → view.is_legal p ≡ true
        → view.content s.0 p ≡ none
        → (f : fat.File) × (t : State fat) × (fat.create_file p s ≡ (some f, t))
          × IsOpen f p 0
          × Becomes p (some []) s t
    pub rejects :
        (p : List ℕ) (s : State fat)
        → view.is_legal p ≡ false
        → view.content s.0 p ≡ none
        → (t : State fat) × (fat.create_file p s ≡ (none, t)) × Same s t
    pub rewinds :
        (f : fat.File) (p : List ℕ) (k : ℕ) (s : State fat)
        → IsOpen f p k
        → (g : fat.File) × (t : State fat) × (fat.seek (start 0) f s ≡ (some 0, g, t))
          × IsOpen g p 0
          × Same s t
    pub winds :
        (f : fat.File) (p bytes : List ℕ) (k : ℕ) (s : State fat)
        → IsOpen f p k
        → view.content s.0 p ≡ some bytes
        → (g : fat.File) × (t : State fat) × (fat.seek (end (pos zero)) f s
            ≡ (some (length bytes), g, t))
          × IsOpen g p (length bytes)
          × Same s t
    pub truncates :
        (f : fat.File) (p bytes : List ℕ) (s : State fat)
        → view.is_plain p ≡ true
        → IsOpen f p 0
        → view.content s.0 p ≡ some bytes
        → (g : fat.File) × (t : State fat) × (fat.truncate f s ≡ (true, g, t))
          × IsOpen g p 0
          × Becomes p (some []) s t
    pub writes :
        (f : fat.File) (p bytes : List ℕ) (s : State fat)
        → view.is_plain p ≡ true
        → IsOpen f p 0
        → view.content s.0 p ≡ some []
        → length bytes ≤ view.cluster
        → (g : fat.File) × (t : State fat) × (fat.write bytes f s ≡ (some (length bytes), g, t))
          × Becomes p (some bytes) s t
    pub flushes :
        (f : fat.File) (s : State fat)
        → (g : fat.File) × (t : State fat) × (fat.flush f s ≡ (true, g, t)) × Same s t
    pub reads :
        (f : fat.File) (p bytes : List ℕ) (n k : ℕ) (s : State fat)
        → IsOpen f p k
        → view.content s.0 p ≡ some bytes
        → (g : fat.File) × (t : State fat) × (fat.read n f s ≡ (some (chunk n k bytes), g, t))
          × IsOpen g p (k + length (chunk n k bytes))
          × Same s t
    pub removes :
        (p bytes : List ℕ) (s : State fat)
        → view.is_plain p ≡ true
        → view.content s.0 p ≡ some bytes
        → (t : State fat) × (fat.remove p s ≡ (true, t)) × Becomes p none s t
    pub keeps :
        (p : List ℕ) (s : State fat)
        → view.is_plain p ≡ true
        → view.content s.0 p ≡ none
        → (t : State fat) × (fat.remove p s ≡ (false, t)) × Same s t
    pub closes : (f : fat.File) (s : State fat) → Same s (fat.close f s)
