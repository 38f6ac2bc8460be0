-- ===== src/VirtioBlk/Service/Requests.antt =====
-- Which requests the block service reads and writes for: the tagged messages of apps/fs (`blk_io`
-- and `flush` of apps/fs/src/main.rs) do what they say, the untagged layout is never served.
use mene_os.Base.{
  ℕ, ◌+◌, ◌*◌, ◌%◌, ◌^◌, ◌≤◌, ◌<◌, ◌≡◌, ◌⊎◌, inl, inr, refl, ◌∙◌, ap, Bool, true, false, List, [],
  ◌∷◌, ◌++◌, some, leb, copy_at, if◌then◌else◌, arith, length, slice, to_le, from_le, from_le-to_le,
  take-append,
}
use mene_os.Abi.Handle.{Handle}
use mene_os.Abi.Blk.{req_read, req_write}
use mene_os.Fs.BlkCall.{tag_request}
use mene_os.Fs.Disk.{write_request}
use mene_os.VirtioBlk.Backend.{Driver, Backend, Disk, real_mmio, real_pci, mock, write_blocks}
use mene_os.VirtioBlk.Service.{
  Request, req_buf_len, opcode_of, tagged, bytes_of, einval, Service, serve_read, serve_write,
  ok_or_eio, serve_opcode, serve, reply_bytes,
}

-- A message in the buffer of the service, before what was left in the buffer.
abbrev pub received : List ℕ → List ℕ → Handle → Request
received msg rest handle = record {
  req_len = length msg;
  req_buf = msg ++ rest;
  reply_cap = some handle;
}

-- A read or write request of fewer than 18 bytes is answered EINVAL and changes nothing, so
-- neither is ever served in the untagged layout, whose header has 14 bytes.
pub short_rw_refused :
    {mmio pci : Driver} (r : Request) (s : Service mmio pci)
    → r.req_len < 18
    → (opcode_of r ≡ req_read) ⊎ (opcode_of r ≡ req_write)
    → serve_opcode r s ≡ (einval, s)
unfolding serve_opcode serve_read serve_write
short_rw_refused r s short op = elim op [
  | inl e ↦ rw e (ground (arith, short))
  | inr e ↦ rw e (ground (arith, short))
]

-- A write request for more than 4092 bytes is answered EINVAL and changes nothing, although a
-- request for up to 4096 bytes is allowed, since no more than the buffer is received.
pub large_write_refused :
    {mmio pci : Driver} (r : Request) (s : Service mmio pci)
    → opcode_of r ≡ req_write
    → r.req_len ≤ req_buf_len
    → 4092 < bytes_of r
    → serve_opcode r s ≡ (einval, s)
unfolding serve_opcode serve_write
large_write_refused r s op fits large = rw op (ground (arith, fits, large))

-- What becomes of the backend and of the mock disk, and whether the write succeeds: a device is told
-- to write `payload` at the sector, and on the mock disk of 128 KiB the payload is put there.
abbrev pub written :
    {mmio pci : Driver} → ℕ → List ℕ → Backend mmio pci → List ℕ → Bool × Disk mmio pci
written {mmio} sector payload (real_mmio dev) store =
    let (done, dev') = mmio.write_blocks dev sector payload in
    (done, record { backend = real_mmio dev'; mock_disk = store })
written {mmio} {pci} sector payload (real_pci dev) store =
    let (done, dev') = pci.write_blocks dev sector payload in
    (done, record { backend = real_pci dev'; mock_disk = store })
written sector payload mock store =
    if leb (sector * 512 + length payload) (128 * 1024)
    then (true, record { backend = mock; mock_disk = copy_at (sector * 512) payload store })
    else (false, record { backend = mock; mock_disk = store })

-- The payload of the answer.
abbrev pub done_text : Bool → List ℕ
done_text true = b'O' ∷ b'K' ∷ []
done_text false = b'E' ∷ b'I' ∷ b'O' ∷ []

module _ (tag sector : ℕ) (payload rest : List ℕ) (handle : Handle) (tag_lt : tag < 2 ^ 32)
    (sector_lt : sector < 2 ^ 64) (some_bytes : 0 < length payload)
    (small : 18 + length payload ≤ req_buf_len) (blocks : length payload % 512 ≡ 0) where
  abbrev write_message : Request
  write_message = received (tag_request tag (write_request sector payload)) rest handle

  write_message-len : write_message.req_len ≡ 18 + length payload
  unfolding tag_request write_request to_le
  write_message-len = omega arith

  write_message-opcode : opcode_of write_message ≡ req_write
  unfolding tag_request write_request to_le slice from_le
  write_message-opcode = refl

  write_message-tagged : tagged write_message ≡ true
  write_message-tagged = ground (arith, write_message-len)

  write_message-fields :
      (from_le (slice 2 4 write_message.req_buf) ≡ tag)
      × (from_le (slice 6 8 write_message.req_buf) ≡ sector)
      × (from_le (slice 14 4 write_message.req_buf) ≡ length payload)
      × (slice 18 (length payload) write_message.req_buf ≡ payload)
  unfolding tag_request write_request to_le slice
  write_message-fields = (
    from_le-to_le 4 tag tag_lt,
    from_le-to_le 8 sector sector_lt,
    from_le-to_le 4 (length payload) (omega arith),
    take-append payload rest,
  )

  served_write :
      {mmio pci : Driver} (s : Service mmio pci)
      → serve write_message s ≡ (
        some (handle, to_le 4 tag ++ (ok_or_eio s (write_blocks sector payload s.disk)).0),
        (ok_or_eio s (write_blocks sector payload s.disk)).1,
      )
  unfolding serve serve_opcode serve_write reply_bytes
  served_write s =
      let (t, sec, n, bytes) = write_message-fields in
      rw (write_message-opcode, write_message-tagged, t, sec, n, bytes, write_message-len)
        (ground arith)

  write_blocks-written :
      {mmio pci : Driver} (b : Backend mmio pci) (store : List ℕ)
      → write_blocks sector payload (record { backend = b; mock_disk = store })
        ≡ written sector payload b store
  unfolding write_blocks
  write_blocks-written (real_mmio dev) store = ground (arith, some_bytes, blocks)
  write_blocks-written (real_pci dev) store = ground (arith, some_bytes, blocks)
  write_blocks-written mock store = ground (arith, some_bytes, blocks, small, sector_lt)

  answered :
      {mmio pci : Driver} (s : Service mmio pci) (x : Bool × Disk mmio pci)
      → ok_or_eio s x ≡ (done_text x.0, record { disk = x.1; io_buf = s.io_buf })
  answered s (true, d) = refl
  answered s (false, d) = refl

  -- The tagged message that apps/fs builds to write a payload of whole 512-byte blocks at a sector,
  -- if it fits the buffer of the service, makes the service write just this payload there, by one
  -- call of its device, or on the mock disk if all of it lies inside. The answer goes to the
  -- capability of the request, after the same tag: OK, or EIO if the write fails.
  pub serve-write_message :
      {mmio pci : Driver} (s : Service mmio pci)
      → let (done, disk) = written sector payload s.disk.backend s.disk.mock_disk in
        serve write_message s
        ≡ (some (handle, to_le 4 tag ++ done_text done), record { disk = disk; io_buf = s.io_buf })
  serve-write_message s =
      served_write s
      ∙ ap (λ x. (some (handle, to_le 4 tag ++ x.0), x.1))
          (answered s (write_blocks sector payload s.disk)
            ∙ ap (λ x. (done_text x.0, record { disk = x.1; io_buf = s.io_buf }))
                (write_blocks-written s.disk.backend s.disk.mock_disk))
