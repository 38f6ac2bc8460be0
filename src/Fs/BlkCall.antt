-- ===== src/Fs/BlkCall.antt =====
-- apps/fs/src/main.rs: `blk_call`, one request to the block service and the wait for its reply.
use mene_os.Base.{
  ℕ, zero, suc, ◌+◌, ◌-◌, ◌%◌, ◌^◌, min, Bool, true, false, not, List, [], ◌∷◌, ◌++◌, Option, none,
  some, length, take, drop, slice, copy_front, ltb, ◌==◌, if◌then◌else◌, to_le, from_le,
}
use mene_os.Abi.Blk.{tag_len, max_io_bytes}
use mene_os.Abi.Handle.{Handle, virtio_blk_endpoint, local_endpoint, to_usize, from_usize}
use mene_os.Ulib.World.{World}
use mene_os.Ulib.Ipc.{Recv, sys_ipc_send, sys_ipc_send_checked, sys_ipc_recv_timeout}
use mene_os.Ulib.Control.{ctl_lookup_service}

-- The statics `BLK_REQ_ID` and `BLK_SERVICE_HANDLE`, and what the service sees of the kernel.
pub record Client : Type 0 where
  pub blk_req_id : ℕ
  pub blk_service_handle : ℕ
  pub world : World

unfoldable pub next_blk_req_id : Client → ℕ × Client
next_blk_req_id c = (c.blk_req_id, record c { blk_req_id = (c.blk_req_id + 1) % 2 ^ 32 })

abbrev pub virtio_blk_name : List ℕ
virtio_blk_name = b'v' ∷ b'i' ∷ b'r' ∷ b't' ∷ b'i' ∷ b'o' ∷ b'_' ∷ b'b' ∷ b'l' ∷ b'k' ∷ []

abbrev pub or_default : Option Handle → Handle
or_default none = virtio_blk_endpoint
or_default (some h) = h

unfoldable pub blk_service_handle : Client → Handle × Client
blk_service_handle c =
    if not (c.blk_service_handle == 0)
    then (from_usize c.blk_service_handle, c)
    else (let (found, w) = ctl_lookup_service virtio_blk_name c.world in
        let resolved = or_default found in
        (resolved, record c { blk_service_handle = to_usize resolved; world = w }))

-- The request with its number behind the opcode.
unfoldable pub tag_request : ℕ → List ℕ → List ℕ
tag_request req_id req = take 2 req ++ (to_le 4 req_id ++ drop 2 req)

abbrev pub eagain : List ℕ
eagain = b'E' ∷ b'A' ∷ b'G' ∷ b'A' ∷ b'I' ∷ b'N' ∷ []

-- What a received message means: go on in a world, or the payload of the reply.
abbrev pub take_reply : ℕ → Recv → ℕ → World → Option (List ℕ) × World
take_reply req_id r n w = elim r.recv_cap [
  | some handle ↦ (none, sys_ipc_send handle eagain none w)
  | none ↦
      if ltb n tag_len
      then (none, w)
      else if not (from_le (slice 0 4 r.buf) == req_id)
      then (none, w)
      else (some (slice tag_len (n - tag_len) r.buf), w)
]

unfoldable pub wait_reply : ℕ → World → Option (List ℕ) × World
wait_reply req_id w =
    let (r, w') = sys_ipc_recv_timeout w in
    elim r.result [ none ↦ (none, w') | some n ↦ take_reply req_id r n w' ]

abbrev pub fill : List ℕ → List ℕ → ℕ × List ℕ
fill payload resp =
    let copy = min (length payload) (length resp) in (copy, copy_front (take copy payload) resp)

-- The loop over `tries`: the length and the response buffer, and the world after it.
unfoldable pub blk_wait : ℕ → ℕ → List ℕ → World → ℕ × List ℕ × World
blk_wait zero req_id resp w = (0, resp, w)
blk_wait (suc tries) req_id resp w =
    let (reply, w') = wait_reply req_id w in
    let rest = blk_wait tries req_id resp w' in
    elim reply [
      | none ↦ rest
      | some payload ↦ let (copy, filled) = fill payload resp in (copy, filled, w')
    ]

abbrev pub await_blk : ℕ → List ℕ → Client → Bool × World → ℕ × List ℕ × Client
await_blk req_id resp c (false, w) = (0, resp, record c { world = w })
await_blk req_id resp c (true, w) =
    let (copy, filled, w') = blk_wait 250 req_id resp w in (copy, filled, record c { world = w' })

unfoldable pub blk_call : List ℕ → List ℕ → Client → ℕ × List ℕ × Client
blk_call req resp c =
    let (req_id, c') = next_blk_req_id c in
    if ltb (max_io_bytes + 32) (length req + tag_len)
    then (0, resp, c')
    else (let (handle, d) = blk_service_handle c' in
        await_blk req_id resp d
          (sys_ipc_send_checked handle (tag_request req_id req) (some local_endpoint) d.world))
