-- ===== src/Fs/Service.antt =====
-- apps/fs/src/main.rs, `_start`: the loop over requests. The crate `axfatfs` is a parameter.
pub mod Files
pub mod Refinement
pub mod Sequences
pub mod ReadAll
pub mod Exec
pub mod NoCapability
use mene_os.Base.{
  ℕ, zero, suc, ◌+◌, Bool, true, false, not, List, [], ◌∷◌, ◌++◌, Option, none, some, length, ltb,
  ◌==◌, if◌then◌else◌,
}
use mene_os.Base.Int.{pos}
use mene_os.Abi.Blk.{max_io_bytes}
use mene_os.Abi.Fs
use mene_os.Abi.Handle.{Handle}
use mene_os.Ulib.Ipc.{Received, sys_ipc_send, sys_ipc_recv, sys_spawn_elf}
use mene_os.Fs.BlkCall.{Client, eagain}
use mene_os.Fs.Disk.{Disk, start, end}
use mene_os.Fs.Disk
use mene_os.Fs.FatFs.{FatFs, State}
use mene_os.Fs.Requests.{Request, decode_request, path_arg, write_args, frame, normalize_path}

-- b"PONG", b"OK", b"EINVAL", b"EIO", b"ENOENT"
abbrev pub pong : List ℕ
pong = b'P' ∷ b'O' ∷ b'N' ∷ b'G' ∷ []

abbrev pub ok : List ℕ
ok = b'O' ∷ b'K' ∷ []

abbrev pub einval : List ℕ
einval = b'E' ∷ b'I' ∷ b'N' ∷ b'V' ∷ b'A' ∷ b'L' ∷ []

abbrev pub eio : List ℕ
eio = b'E' ∷ b'I' ∷ b'O' ∷ []

abbrev pub enoent : List ℕ
enoent = b'E' ∷ b'N' ∷ b'O' ∷ b'E' ∷ b'N' ∷ b'T' ∷ []

-- `reply(cap, payload)`
unfoldable pub reply : Handle → Option ℕ → List ℕ → Client → Client
reply cap req_id payload c = record c {
  world = sys_ipc_send cap (frame req_id payload) none c.world;
}

module _ (fat : FatFs) where
  -- What an arm replies, the file that is dropped after the reply, and the state before it.
  abbrev pub Answer : Type 0
  Answer = List ℕ × Option fat.File × State fat

  -- What the loop of `read_file_all` does with one read, behind `out`; `next` goes on.
  abbrev pub read_more :
      (List ℕ → fat.File → State fat → Option (List ℕ) × State fat)
      → List ℕ
      → Option (List ℕ) × fat.File × State fat
      → Option (List ℕ) × State fat
  read_more next out (none, f, s) = (none, fat.close f s)
  read_more next out (some [], f, s) = (some out, fat.close f s)
  read_more next out (some (b ∷ bs), f, s) = next (out ++ b ∷ bs) f s

  -- `none` also when the fuel runs out.
  unfoldable pub read_loop : ℕ → List ℕ → fat.File → State fat → Option (List ℕ) × State fat
  read_loop zero out f s = (none, fat.close f s)
  read_loop (suc fuel) out f s =
      read_more (λ more g t. read_loop fuel more g t) out (fat.read max_io_bytes f s)

  -- A round for each byte of the file, and one that reads nothing.
  abbrev pub read_front : ℕ → Option ℕ × fat.File × State fat → Option (List ℕ) × State fat
  read_front size (none, f, s) = (none, fat.close f s)
  read_front size (some n, f, s) = read_loop (size + 1) [] f s

  abbrev pub read_sized : Option ℕ × fat.File × State fat → Option (List ℕ) × State fat
  read_sized (none, f, s) = (none, fat.close f s)
  read_sized (some size, f, s) = read_front size (fat.seek (start 0) f s)

  abbrev pub read_opened : Option fat.File × State fat → Option (List ℕ) × State fat
  read_opened (none, s) = (none, s)
  read_opened (some f, s) = read_sized (fat.seek (end (pos zero)) f s)

  unfoldable pub read_file_all : List ℕ → State fat → Option (List ℕ) × State fat
  read_file_all path s = read_opened (fat.open_file (normalize_path path) s)

  unfoldable pub ensure_fs : Option fat.Fs → Client → Option fat.Fs × Client
  ensure_fs (some fs) c = (some fs, c)
  ensure_fs none c =
      let (disk, c1) = Disk.new c in elim disk [ none ↦ (none, c1) | some d ↦ fat.new d c1 ]

  abbrev pub or_create : List ℕ → Option fat.File × State fat → Option fat.File × State fat
  or_create p (none, s) = fat.create_file p s
  or_create p (some f, s) = (some f, s)

  -- The four calls of the write arm, up to the first that fails. How many bytes the write took is
  -- not looked at.
  abbrev pub flush_written : Option ℕ × fat.File × State fat → Bool × fat.File × State fat
  flush_written (none, f, s) = (false, f, s)
  flush_written (some n, f, s) = fat.flush f s

  abbrev pub write_cut : List ℕ → Bool × fat.File × State fat → Bool × fat.File × State fat
  write_cut bytes (false, f, s) = (false, f, s)
  write_cut bytes (true, f, s) = flush_written (fat.write bytes f s)

  abbrev pub write_front : List ℕ → Option ℕ × fat.File × State fat → Bool × fat.File × State fat
  write_front bytes (none, f, s) = (false, f, s)
  write_front bytes (some n, f, s) = write_cut bytes (fat.truncate f s)

  abbrev pub stored : Bool × fat.File × State fat → Answer
  stored (done, f, s) = (if done then ok else eio, some f, s)

  abbrev pub write_opened : List ℕ → Option fat.File × State fat → Answer
  write_opened bytes (none, s) = (eio, none, s)
  write_opened bytes (some f, s) = stored (write_front bytes (fat.seek (start 0) f s))

  unfoldable pub answer_write : List ℕ → List ℕ → State fat → Answer
  answer_write path bytes s =
      let p = normalize_path path in write_opened bytes (or_create p (fat.open_file p s))

  abbrev pub reply_bytes : Option (List ℕ) × fat.File × State fat → Answer
  reply_bytes (none, f, s) = (eio, some f, s)
  reply_bytes (some bytes, f, s) = (if length bytes == 0 then enoent else bytes, some f, s)

  abbrev pub reply_front : Option ℕ × fat.File × State fat → Answer
  reply_front (none, f, s) = (eio, some f, s)
  reply_front (some n, f, s) = reply_bytes (fat.read Fs.max_data f s)

  abbrev pub reply_opened : Option fat.File × State fat → Answer
  reply_opened (none, s) = (enoent, none, s)
  reply_opened (some f, s) = reply_front (fat.seek (start 0) f s)

  unfoldable pub answer_read : List ℕ → State fat → Answer
  answer_read path s = reply_opened (fat.open_file (normalize_path path) s)

  abbrev pub reply_removed : Bool × State fat → Answer
  reply_removed (removed, s) = (if removed then ok else enoent, none, s)

  unfoldable pub answer_delete : List ℕ → State fat → Answer
  answer_delete path s = reply_removed (fat.remove (normalize_path path) s)

  abbrev pub spawn_elf : List ℕ → Option (List ℕ) × State fat → Answer
  spawn_elf path (none, s) = (enoent, none, s)
  spawn_elf path (some elf, (fs, c)) =
      let (pid, w) = sys_spawn_elf path elf c.world in
      (if pid == 0 then eio else ok, none, (fs, record c { world = w }))

  unfoldable pub answer_exec : List ℕ → State fat → Answer
  answer_exec path s = spawn_elf path (read_file_all path s)

  -- An arm on the path of its request.
  abbrev pub on_path : (List ℕ → State fat → Answer) → Option (List ℕ) → State fat → Answer
  on_path arm none s = (einval, none, s)
  on_path arm (some path) s = arm path s

  abbrev pub on_write : Option (List ℕ × List ℕ) → State fat → Answer
  on_write none s = (einval, none, s)
  on_write (some (path, bytes)) s = answer_write path bytes s

  abbrev pub needs_fs : ℕ → Bool
  needs_fs opcode =
      if opcode == Fs.req_write
      then true
      else if opcode == Fs.req_read
      then true
      else if opcode == Fs.req_delete
      then true
      else opcode == Fs.req_exec

  -- The arms that need the file system.
  unfoldable pub answer : Request → State fat → Answer
  answer r s =
      if r.opcode == Fs.req_write
      then on_write (write_args r) s
      else if r.opcode == Fs.req_read
      then on_path answer_read (path_arg r) s
      else if r.opcode == Fs.req_delete
      then on_path answer_delete (path_arg r) s
      else on_path answer_exec (path_arg r) s

  abbrev pub drop_file : Option fat.File → State fat → State fat
  drop_file none s = s
  drop_file (some f) s = fat.close f s

  -- The variables of the loop.
  pub record Server : Type 0 where
    pub fs : Option fat.Fs
    pub client : Client

  abbrev pub finish : Handle → Option ℕ → Answer → Server
  finish cap req_id (payload, file, (fs, c)) =
      let (fs', c') = drop_file file (fs, reply cap req_id payload c) in
      record { fs = some fs'; client = c' }

  abbrev pub serve_mounted : Handle → Request → Option fat.Fs × Client → Server
  serve_mounted cap r (none, c) = record { fs = none; client = reply cap r.req_id eagain c }
  serve_mounted cap r (some fs, c) = finish cap r.req_id (answer r (fs, c))

  -- The match on the opcode, with a capability to reply to.
  unfoldable pub serve : Handle → Request → Server → Server
  serve cap r s =
      if needs_fs r.opcode then serve_mounted cap r (ensure_fs s.fs s.client) else record s {
        client = reply cap r.req_id (if r.opcode == Fs.req_ping then pong else einval) s.client;
      }

  abbrev pub take_request : Received → Server → Server
  take_request m s = elim m.recv_cap [
    | none ↦ s
    | some cap ↦ if ltb m.len 2 then s else serve cap (decode_request m.len m.buf) s
  ]

  -- One round of the loop.
  unfoldable pub round : Server → Server
  round s =
      let (m, w) = sys_ipc_recv s.client.world in
      take_request m (record s { client = record s.client { world = w } })
