-- ===== src/VirtioBlk/Service.antt =====
-- apps/virtio_blk/src/main.rs, the loop of `_start`: one request of the block service.
pub mod Requests
use mene_os.Base.{
  ℕ, ◌+◌, ◌%◌, Bool, true, false, not, ◌||◌, List, [], ◌∷◌, ◌++◌, Option, none, some, length, take,
  drop, slice, ltb, leb, ◌==◌, if◌then◌else◌, to_le, from_le, copy_front,
}
use mene_os.Abi.Handle.{Handle}
use mene_os.Abi.Blk.{
  req_ping, req_get_info, req_read, req_write, req_flush, rw_hdr_len, tagged_hdr_len,
  rw_tagged_hdr_len, max_io_bytes,
}
use mene_os.VirtioBlk.Backend.{Driver, Disk, sector_size, info, read_blocks, write_blocks, flush}

-- What `sys_ipc_recv` left: the length, the whole buffer and the capability for the reply.
pub record Request : Type 0 where
  pub req_len : ℕ
  pub req_buf : List ℕ
  pub reply_cap : Option Handle

-- The length of `req_buf`.
abbrev pub req_buf_len : ℕ
req_buf_len = 2 + 8 + 4 + max_io_bytes

abbrev pub pong : List ℕ
pong = b'P' ∷ b'O' ∷ b'N' ∷ b'G' ∷ []

abbrev pub ok_text : List ℕ
ok_text = b'O' ∷ b'K' ∷ []

abbrev pub einval : List ℕ
einval = b'E' ∷ b'I' ∷ b'N' ∷ b'V' ∷ b'A' ∷ b'L' ∷ []

abbrev pub eio : List ℕ
eio = b'E' ∷ b'I' ∷ b'O' ∷ []

-- The values that the loop computes from a request before it looks at the opcode.
abbrev pub opcode_of : Request → ℕ
opcode_of r = from_le (slice 0 2 r.req_buf)

abbrev pub tagged : Request → Bool
tagged r = leb tagged_hdr_len r.req_len

abbrev pub req_tag : Request → ℕ
req_tag r = if tagged r then from_le (slice 2 4 r.req_buf) else 0

abbrev pub hdr_len : Request → ℕ
hdr_len r = if tagged r then rw_tagged_hdr_len else rw_hdr_len

abbrev pub payload_off : Request → ℕ
payload_off r = if tagged r then tagged_hdr_len else 2

abbrev pub sector_of : Request → ℕ
sector_of r = from_le (slice (payload_off r) 8 r.req_buf)

abbrev pub bytes_of : Request → ℕ
bytes_of r = from_le (slice (payload_off r + 8) 4 r.req_buf)

abbrev pub bad_bytes : ℕ → Bool
bad_bytes bytes = bytes == 0 || ltb max_io_bytes bytes || not (bytes % sector_size == 0)

-- The payload of `send_reply`.
unfoldable pub reply_bytes : Request → List ℕ → List ℕ
reply_bytes r payload = if tagged r then to_le 4 (req_tag r) ++ payload else payload

-- The disk, and the buffer that is kept between requests.
pub record Service (mmio pci : Driver) : Type 0 where
  pub disk : Disk mmio pci
  pub io_buf : List ℕ

abbrev pub info_bytes : ℕ × ℕ → List ℕ
info_bytes (block_size, block_count) = to_le 8 block_size ++ to_le 8 block_count

module _ {mmio pci : Driver} where
  -- The payload of the reply, and the state after it.
  abbrev pub read_done :
      Service mmio pci → ℕ → Bool × List ℕ × Disk mmio pci → List ℕ × Service mmio pci
  read_done s bytes (true, out, d) = (out, record { disk = d; io_buf = copy_front out s.io_buf })
  read_done s bytes (false, out, d) = (eio, record { disk = d; io_buf = copy_front out s.io_buf })

  unfoldable pub serve_read : Request → Service mmio pci → List ℕ × Service mmio pci
  serve_read r s =
      if ltb r.req_len (hdr_len r)
      then (einval, s)
      else if bad_bytes (bytes_of r)
      then (einval, s)
      else read_done s (bytes_of r) (read_blocks (sector_of r) (take (bytes_of r) s.io_buf) s.disk)

  abbrev pub ok_or_eio : Service mmio pci → Bool × Disk mmio pci → List ℕ × Service mmio pci
  ok_or_eio s (true, d) = (ok_text, record s { disk = d })
  ok_or_eio s (false, d) = (eio, record s { disk = d })

  unfoldable pub serve_write : Request → Service mmio pci → List ℕ × Service mmio pci
  serve_write r s =
      if ltb r.req_len (hdr_len r)
      then (einval, s)
      else if bad_bytes (bytes_of r) || ltb r.req_len (hdr_len r + bytes_of r)
      then (einval, s)
      else ok_or_eio s
          (write_blocks (sector_of r) (slice (hdr_len r) (bytes_of r) r.req_buf) s.disk)

  -- The arms of the match on the opcode, for a request that carries a capability.
  unfoldable pub serve_opcode : Request → Service mmio pci → List ℕ × Service mmio pci
  serve_opcode r s =
      if opcode_of r == req_ping
      then (pong, s)
      else if opcode_of r == req_get_info
      then (info_bytes (info s.disk), s)
      else if opcode_of r == req_read
      then serve_read r s
      else if opcode_of r == req_write
      then serve_write r s
      else if opcode_of r == req_flush
      then ok_or_eio s (flush s.disk)
      else (einval, s)

  abbrev pub send_reply :
      Request → Handle → List ℕ × Service mmio pci → Option (Handle × List ℕ) × Service mmio pci
  send_reply r handle (payload, s) = (some (handle, reply_bytes r payload), s)

  -- One round of the loop: the message that is sent, if any, and the next state.
  unfoldable pub serve : Request → Service mmio pci → Option (Handle × List ℕ) × Service mmio pci
  serve r s = if ltb r.req_len 2 then (none, s) else elim r.reply_cap [
    | none ↦ (none, s)
    | some handle ↦ send_reply r handle (serve_opcode r s)
  ]
