-- ===== src/Fs/Disk.antt =====
-- apps/fs/src/main.rs, `VirtioBlkDisk`: a byte cursor over sectors. The loops of `read` and
-- `write` take the sector transfers as an interface; the instance of the service sends them
-- through `blk_call`. A loop has fuel for the bytes of its buffer, since each round moves one.
pub mod Transfer
pub mod Store
pub mod Written
pub mod RoundTrip
use mene_os.Base.{
  ℕ, zero, suc, ◌+◌, ◌-◌, ◌*◌, ◌/◌, ◌%◌, ◌^◌, min, Bool, true, false, not, ◌&&◌, ◌||◌, List, [],
  ◌∷◌, ◌++◌, Option, none, some, length, take, drop, slice, replicate, ltb, ◌==◌, if◌then◌else◌,
  to_le, from_le, bytes_eq,
}
use mene_os.Base.Int.{ℤ, pos, negsuc}
use mene_os.Abi.Blk.{req_get_info, req_read, req_write, req_flush, max_io_bytes}
use mene_os.Fs.BlkCall.{Client, blk_call}
use Transfer.{SectorIo}

pub record Disk : Type 0 where
  pub pos : ℕ
  pub size : ℕ
  pub block_size : ℕ

abbrev pub saturating_mul : ℕ → ℕ → ℕ
saturating_mul a b = min (a * b) (2 ^ 64 - 1)

abbrev pub info_reply : ℕ → List ℕ → Option Disk
info_reply len resp =
    let block_size = from_le (slice 0 8 resp) in
    let block_count = from_le (slice 8 8 resp) in
    if not (len == 16)
    then none
    else if block_size == 0 || ltb max_io_bytes block_size
    then none
    else some
        (record { pos = 0; size = saturating_mul block_count block_size; block_size = block_size })

-- VirtioBlkDisk::new
unfoldable pub new : Client → Option Disk × Client
new c =
    let (len, resp, c') = blk_call (to_le 2 req_get_info) (replicate 16 0) c in
    (info_reply len resp, c')

unfoldable pub read_request : ℕ → ℕ → List ℕ
read_request sector n = to_le 2 req_read ++ (to_le 8 sector ++ to_le 4 n)

-- `none` for false; otherwise what `out` holds, which is all of it.
unfoldable pub read_sector : ℕ → ℕ → Client → Option (List ℕ) × Client
read_sector sector n c =
    let (len, resp, c') = blk_call (read_request sector n) (replicate max_io_bytes 0) c in
    ((if len == n then some (take len resp) else none), c')

unfoldable pub write_request : ℕ → List ℕ → List ℕ
write_request sector bytes =
    to_le 2 req_write ++ (to_le 8 sector ++ (to_le 4 (length bytes) ++ bytes))

abbrev pub is_ok : ℕ → List ℕ → Bool
is_ok len resp = (len == 2) && bytes_eq (take 2 resp) (b'O' ∷ b'K' ∷ [])

unfoldable pub write_sector : ℕ → List ℕ → Client → Bool × Client
write_sector sector bytes c =
    let (len, resp, c') = blk_call (write_request sector bytes) (replicate 8 0) c in
    (is_ok len resp, c')

-- The transfers of the service.
abbrev pub blk_io : SectorIo
blk_io = record { State = Client; read_sector = read_sector; write_sector = write_sector }

unfoldable pub flush : Client → Bool × Client
flush c =
    let (len, resp, c') = blk_call (to_le 2 req_flush) (replicate 8 0) c in (is_ok len resp, c')

-- axfatfs's `SeekFrom`
pub data SeekFrom : Type 0 where
  start : ℕ → SeekFrom
  current end : ℤ → SeekFrom

-- `checked_add_signed` of a 64-bit number
abbrev pub checked_add_signed : ℕ → ℤ → Option ℕ
checked_add_signed a (pos n) = if ltb (a + n) (2 ^ 64) then some (a + n) else none
checked_add_signed a (negsuc n) = if ltb n a then some (a - (n + 1)) else none

abbrev pub seek_target : SeekFrom → Disk → Option ℕ
seek_target (start p) d = some p
seek_target (current off) d = checked_add_signed d.pos off
seek_target (end off) d = checked_add_signed d.size off

abbrev pub seek_to : Option ℕ → Disk → Option ℕ × Disk
seek_to none d = (none, d)
seek_to (some new_pos) d = let p = min new_pos d.size in (some p, record d { pos = p })

unfoldable pub seek : SeekFrom → Disk → Option ℕ × Disk
seek from d = seek_to (seek_target from d) d
