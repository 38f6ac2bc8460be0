-- ===== src/Fs/Tests.antt =====
-- Runs of the disk of the file service at concrete inputs, over an array of four bytes in sectors
-- of two.
pub mod Memory
mod Handed
use mene_os.Base.{
  Option, false, bytes_eq, if◌then◌else◌, from_le, ◌+◌, min, ◌-◌, ◌⊎◌, none, ℕ, ◌*◌, ◌≡◌, ◌≤◌, refl,
  ◌∙◌, true, List, [], ◌∷◌, ◌++◌, some, arith, length, take, slice, copy_at, sym, take-append,
  replicate, length-append, length-take,
}
use mene_os.Base.Ranges.{length-copy_at}
use mene_os.Base.Int.{negsuc}
use mene_os.Base.Utf8.{is_utf8}
use mene_os.Abi.Handle.{Handle, virtio_blk_endpoint}
use mene_os.Init.Services.{exec_request}
use mene_os.Fs.BlkCall.{Client}
use mene_os.Fs.FatFs.{State, Same}
use mene_os.Fs.Requests.{
  Request, decode_request, path_arg, write_args, normalize_path, trim_slashes,
}
use mene_os.Fs.Requests.Bounds.{write_args-bounds}
use mene_os.Fs.Service.{Server, read_file_all, answer, spawn_elf}
use mene_os.Fs.Service.Refinement.{Holds}
use mene_os.Fs.Service.Sequences.{Rounds, spec_all, serve_all-refines}
use mene_os.Fs.Service.ReadAll.{read_file_all_lem}
use mene_os.Fs.Service.Exec.{Spawned, answer-exec_request}
use Memory.{memory, memory_view, memory-IsVolume}
use mene_os.Fs.Disk.{Disk, seek, end}
use mene_os.Fs.Disk.RoundTrip.{read-write_store, seek_position}
use mene_os.Fs.Disk.Transfer.{SectorIo, read, write}
use mene_os.Fs.Disk.Store.{IsStore, IsRead, read_store}
use mene_os.Fs.Disk.Written.{IsWritten, write_store}

-- The four bytes of a list, with zeros where it is shorter.
abbrev four : List ℕ → List ℕ
four xs = take 4 (xs ++ replicate 4 0)

length-four : (xs : List ℕ) → length (four xs) ≡ 4
length-four xs =
    omega (arith, length-take 4 (xs ++ replicate 4 0), length-append xs (replicate 4 0))

take_all : (xs ys : List ℕ) (n : ℕ) → length xs ≡ n → take n (xs ++ ys) ≡ xs
take_all xs ys n h = rw (sym h) (take-append xs ys)

abbrev array : SectorIo
array = record {
  State = List ℕ;
  read_sector = λ lba n s. (some (slice (lba * n) n (four s)), s);
  write_sector = λ lba bytes s. (true, copy_at (lba * 2) bytes (four s));
}

array-IsStore : IsStore array 2 4 four
array-IsStore = record {
  some_bytes = omega arith;
  whole = λ lba h. omega arith;
  sized = length-four;
  reads = λ lba s h. (refl, refl);
  writes = λ lba bytes s h len. (
    refl,
    take_all (copy_at (lba * 2) bytes (four s)) (replicate 4 0) 4
        (length-copy_at (lba * 2) bytes (four s) (omega (arith, length-four s)) ∙ length-four s),
  );
}

abbrev content : List ℕ
content = 10 ∷ 11 ∷ 12 ∷ 13 ∷ []

read_store_example : IsRead array 2 4 four array-IsStore 3 1 content (read array 2 4 3 1 content)
read_store_example = read_store array 2 4 four array-IsStore 3 1 content

write_store_example :
    IsWritten array 2 4 four array-IsStore
      (7 ∷ 8 ∷ 9 ∷ 6 ∷ [])
      1
      content
      (write array 2 4 (7 ∷ 8 ∷ 9 ∷ 6 ∷ []) 1 content)
write_store_example = write_store array 2 4 four array-IsStore (7 ∷ 8 ∷ 9 ∷ 6 ∷ []) 1 content

read-write_store_example :
    (read array 2 4 4 1 (write array 2 4 (7 ∷ 8 ∷ 9 ∷ 6 ∷ []) 1 content).2).0
    ≡ some (take (min 4 (4 - 1)) (7 ∷ 8 ∷ 9 ∷ 6 ∷ []))
read-write_store_example =
    read-write_store array 2 4 four array-IsStore (7 ∷ 8 ∷ 9 ∷ 6 ∷ []) 1 content (omega arith)

abbrev disk : Disk
disk = record { pos = 3; size = 4; block_size = 2 }

-- A client with no messages, and a volume with the file "a".
abbrev client : Client
client = record {
  blk_req_id = 1;
  blk_service_handle = 0;
  world = record {
    recvs = [];
    send_rets = [];
    spawn_rets = [];
    sent = [];
    spawned = [];
    spawned_elfs = [];
  };
}

abbrev file_name : List ℕ
file_name = b'a' ∷ []

abbrev volume : List ℕ → Option (List ℕ)
volume q = if bytes_eq q file_name then some (1 ∷ 2 ∷ 3 ∷ []) else none

-- A request to write two bytes to "/a".
abbrev write_request : Request
write_request = record {
  opcode = 1;
  reqid_mode = false;
  req_id = none;
  req_len = 12;
  req_buf = 1 ∷ 0 ∷ 2 ∷ 0 ∷ 2 ∷ 0 ∷ 0 ∷ 0 ∷ b'/' ∷ b'a' ∷ 7 ∷ 8 ∷ [];
}

-- A request to read "a".
abbrev read_request : Request
read_request = record {
  opcode = 2;
  reqid_mode = false;
  req_id = none;
  req_len = 5;
  req_buf = 2 ∷ 0 ∷ 1 ∷ 0 ∷ b'a' ∷ [];
}

abbrev requests : List (Handle × Request)
requests = (virtio_blk_endpoint, write_request) ∷ (virtio_blk_endpoint, read_request) ∷ []

abbrev server : Server memory
server = record { fs = some volume; client = client }

serve_all-refines_example :
    (u : Server memory) × (fs' : memory.Fs) × Rounds memory memory_view requests
      (spec_all memory memory_view requests volume).0
      server
      u
    × (u.fs ≡ some fs')
    × Holds memory memory_view fs' (spec_all memory memory_view requests volume).1
unfolding write_args path_arg from_le slice is_utf8
serve_all-refines_example =
    serve_all-refines memory memory_view memory-IsVolume requests server volume volume refl refl
      refl (λ q plain. refl)

write_args-bounds_example :
    (1 ≤ 2)
    × (2 ≤ 128)
    × (2 ≤ 512)
    × (8 + 2 + 2 ≤ 12)
    × (2 ≡ from_le (slice 2 2 write_request.req_buf))
    × (2 ≡ from_le (slice 4 4 write_request.req_buf))
    × (slice 8 (2 + 2) write_request.req_buf ≡ b'/' ∷ b'a' ∷ 7 ∷ 8 ∷ [])
unfolding write_args from_le slice is_utf8
write_args-bounds_example =
    write_args-bounds write_request (b'/' ∷ b'a' ∷ []) (7 ∷ 8 ∷ []) (omega arith) refl

read_file_all_lem_example :
    (t : State memory) × (read_file_all memory (b'/' ∷ file_name) (volume, client)
      ≡ (volume (normalize_path (b'/' ∷ file_name)), t))
    × Same memory memory_view (volume, client) t
read_file_all_lem_example =
    read_file_all_lem memory memory_view memory-IsVolume (b'/' ∷ file_name) (volume, client)

answer-exec_request_example :
    (t : State memory) × (read_file_all memory file_name (volume, client)
      ≡ (some (1 ∷ 2 ∷ 3 ∷ []), t))
    × Same memory memory_view (volume, client) t
    × Spawned memory file_name
        (1 ∷ 2 ∷ 3 ∷ [])
        t
        (answer memory (decode_request (4 + 1) (exec_request file_name ++ 9 ∷ [])) (volume, client))
unfolding is_utf8 normalize_path trim_slashes bytes_eq
answer-exec_request_example =
    answer-exec_request memory memory_view memory-IsVolume file_name (1 ∷ 2 ∷ 3 ∷ []) (9 ∷ [])
      (volume, client) (omega arith) (omega arith) refl refl
