-- ===== src/Fs/Tests/Memory.antt =====
-- A volume in memory, with clusters of 512 bytes: a file system is a function from paths to bytes,
-- and an open file is a path and a cursor.
use mene_os.Base.{
  ℕ, ◌+◌, ◌-◌, ◌%◌, ◌≡◌, refl, ◌∙◌, ap, min, Bool, true, false, List, [], Option, none, some, arith,
  length, take, drop, if◌then◌else◌, bytes_eq, bytes_eq_iff,
}
use mathlib.Core.Bool.{true≢false}
use mene_os.Fs.BlkCall.{Client}
use mene_os.Fs.Disk.{SeekFrom, start, current, end}
use mene_os.Fs.FatFs.{FatFs, View, IsVolume}

abbrev Files : Type 0
Files = List ℕ → Option (List ℕ)

abbrev Open : Type 0
Open = List ℕ × ℕ

abbrev St : Type 0
St = Files × Client

abbrev set_file : List ℕ → Option (List ℕ) → Files → Files
set_file p v m q = if bytes_eq q p then v else m q

abbrev bytes_of : Option (List ℕ) → List ℕ
bytes_of none = []
bytes_of (some bytes) = bytes

abbrev opened : List ℕ → Option (List ℕ) → St → Option Open × St
opened p none s = (none, s)
opened p (some bytes) s = (some (p, 0), s)

abbrev removed : List ℕ → Option (List ℕ) → St → Bool × St
removed p none s = (false, s)
removed p (some bytes) (m, c) = (true, (set_file p none m, c))

abbrev moved : SeekFrom → Open → St → Option ℕ × Open × St
moved (start n) (p, k) s = (some n, (p, n), s)
moved (current off) (p, k) s = (none, (p, k), s)
moved (end off) (p, k) (m, c) = let n = length (bytes_of (m p)) in (some n, (p, n), (m, c))

abbrev got : ℕ → Open → St → Option (List ℕ) × Open × St
got n (p, k) (m, c) =
    let bytes = take (min n (512 - k % 512)) (drop k (bytes_of (m p))) in
    (some bytes, (p, k + length bytes), (m, c))

abbrev pub memory : FatFs
memory = record {
  Fs = Files;
  File = Open;
  new = λ d c. (some (λ q. none), c);
  open_file = λ p s. opened p (s.0 p) s;
  create_file = λ p s. (some (p, 0), (set_file p (some []) s.0, s.1));
  remove = λ p s. removed p (s.0 p) s;
  seek = moved;
  truncate = λ f s. (true, f, (set_file f.0 (some []) s.0, s.1));
  write = λ bytes f s. (some (length bytes), f, (set_file f.0 (some bytes) s.0, s.1));
  flush = λ f s. (true, f, s);
  read = got;
  close = λ f s. s;
}

abbrev pub memory_view : View memory
memory_view = record {
  content = λ m. m;
  is_plain = λ p. true;
  is_legal = λ p. true;
  same_file = bytes_eq;
  name = λ f. f.0;
  at = λ f. f.1;
  cluster = 512;
}

pub memory-IsVolume : IsVolume memory memory_view
memory-IsVolume = record {
  big = omega arith;
  reflexive = λ p. (bytes_eq_iff p p).1 refl;
  shared = λ q p fs h. ap fs ((bytes_eq_iff q p).0 h);
  opens = λ p bytes s h.
      ((p, 0), s, ap (λ x. opened p x s) h, record { named = refl; placed = refl }, λ q. refl);
  misses = λ p s h. (s, ap (λ x. opened p x s) h, λ q. refl);
  creates = λ p s plain l h. (
    (p, 0),
    (set_file p (some []) s.0, s.1),
    refl,
    record { named = refl; placed = refl },
    λ q at. refl,
  );
  rejects = λ p s l h. absurd (true≢false l);
  rewinds = λ f p k s o. ((f.0, 0), s, refl, record { named = o.named; placed = refl }, λ q. refl);
  winds = λ f p bytes k s o h.
      let e : bytes_of (s.0 f.0) ≡ bytes = ap (λ x. bytes_of (s.0 x)) o.named ∙ ap bytes_of h in
      (
        (f.0, length bytes),
        s,
        ap (λ x. (some (length x), (f.0, length x), s)) e,
        record { named = o.named; placed = refl },
        λ q. refl,
      );
  truncates = λ f p bytes s plain o h. (
    f,
    (set_file f.0 (some []) s.0, s.1),
    refl,
    o,
    λ q at. ap (λ x. set_file x (some []) s.0 q) o.named,
  );
  writes = λ f p bytes s plain o h fits. (
    f,
    (set_file f.0 (some bytes) s.0, s.1),
    refl,
    λ q at. ap (λ x. set_file x (some bytes) s.0 q) o.named,
  );
  flushes = λ f s. (f, s, refl, λ q. refl);
  reads = λ f p bytes n k s o h.
      let e : bytes_of (s.0 f.0) ≡ bytes = ap (λ x. bytes_of (s.0 x)) o.named ∙ ap bytes_of h in
      let read : List ℕ → ℕ → List ℕ = λ xs j. take (min n (512 - j % 512)) (drop j xs) in
      (
        (f.0, k + length (read bytes k)),
        s,
        ap (λ x. (some (read x f.1), (f.0, f.1 + length (read x f.1)), s)) e
            ∙ ap (λ j. (some (read bytes j), (f.0, j + length (read bytes j)), s)) o.placed,
        record { named = o.named; placed = refl },
        λ q. refl,
      );
  removes =
      λ p bytes s plain h. ((set_file p none s.0, s.1), ap (λ x. removed p x s) h, λ q at. refl);
  keeps = λ p s plain h. (s, ap (λ x. removed p x s) h, λ q. refl);
  closes = λ f s q. refl;
}
