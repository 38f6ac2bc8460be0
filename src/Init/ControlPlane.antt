-- ===== src/Init/ControlPlane.antt =====
-- apps/init/src/main.rs: `parse_control_req`, `device_query_value`, `handle_control_plane_msg` and
-- `wait_for_reply_or_control`.
pub mod Requests
use mene_os.Base.{
  ℕ, zero, suc, ◌+◌, Bool, true, false, ◌&&◌, ◌||◌, List, [], ◌∷◌, ◌++◌, Option, none, some, length,
  take, slice, ltb, ◌==◌, if◌then◌else◌, bytes_eq, to_le, from_le,
}
use mene_os.Abi.Handle.{Handle, dynamic, to_usize}
use mene_os.Abi.Control.{
  req_register_service, req_lookup_service, req_device_query, max_service_name, hdr_len,
}
use mene_os.Ulib.World.{World}
use mene_os.Ulib.Ipc.{Recv, sys_ipc_send, sys_ipc_recv_timeout}
use mene_os.Init.Registry.{RegistrySlot, register, lookup}

unfoldable pub parse_control_req : List ℕ → Option (ℕ × List ℕ)
parse_control_req req =
    if ltb (length req) hdr_len
    then none
    else (let name_len = from_le (slice 2 2 req) in
        if name_len == 0 || ltb max_service_name name_len
        then none
        else if ltb (length req) (hdr_len + name_len)
        then none
        else some (from_le (slice 0 2 req), slice 4 name_len req))

-- b"pci.ecam_base", b"virtio_blk.mmio_base", b"virtio_blk.mmio_size"
abbrev pub pci_ecam_base : List ℕ
pci_ecam_base =
    b'p' ∷ b'c' ∷ b'i' ∷ b'.' ∷ b'e' ∷ b'c' ∷ b'a' ∷ b'm' ∷ b'_' ∷ b'b' ∷ b'a' ∷ b's' ∷ b'e' ∷ []

abbrev mmio_key : List ℕ → List ℕ
mmio_key rest =
    b'v' ∷ b'i' ∷ b'r' ∷ b't' ∷ b'i' ∷ b'o' ∷ b'_' ∷ b'b' ∷ b'l' ∷ b'k' ∷ b'.' ∷ b'm' ∷ b'm' ∷ b'i'
    ∷ b'o' ∷ b'_' ∷ rest

abbrev pub virtio_blk_mmio_base : List ℕ
virtio_blk_mmio_base = mmio_key (b'b' ∷ b'a' ∷ b's' ∷ b'e' ∷ [])

abbrev pub virtio_blk_mmio_size : List ℕ
virtio_blk_mmio_size = mmio_key (b's' ∷ b'i' ∷ b'z' ∷ b'e' ∷ [])

unfoldable pub device_query_value : List ℕ → Option ℕ
device_query_value key =
    if bytes_eq key pci_ecam_base
    then some 0x4010_000000
    else if bytes_eq key virtio_blk_mmio_base
    then some 0x0a00_0000
    else if bytes_eq key virtio_blk_mmio_size
    then some 0x1000
    else none

abbrev pub ok_text : List ℕ
ok_text = b'O' ∷ b'K' ∷ []

abbrev pub enoent : List ℕ
enoent = b'E' ∷ b'N' ∷ b'O' ∷ b'E' ∷ b'N' ∷ b'T' ∷ []

-- The registry of init and what it sees of the kernel.
pub record Plane : Type 0 where
  pub registry : List RegistrySlot
  pub world : World

unfoldable pub handle_register : List ℕ → ℕ → Option Handle → Plane → Plane
handle_register name from_pid none s = s
handle_register name from_pid (some handle) s = record s {
  registry = (register name from_pid (to_usize handle) s.registry).1;
}

abbrev pub lookup_answer : Handle → Option ℕ → World → World
lookup_answer reply_ep none w = sys_ipc_send reply_ep enoent none w
lookup_answer reply_ep (some service_cap) w =
    sys_ipc_send reply_ep ok_text (some (dynamic service_cap)) w

unfoldable pub handle_lookup : List ℕ → Option Handle → Plane → Plane
handle_lookup name none s = s
handle_lookup name (some reply_ep) s = record s {
  world = lookup_answer reply_ep (lookup name s.registry) s.world;
}

abbrev pub query_answer : Handle → Option ℕ → World → World
query_answer reply_ep none w = sys_ipc_send reply_ep enoent none w
query_answer reply_ep (some v) w = sys_ipc_send reply_ep (ok_text ++ to_le 8 v) none w

unfoldable pub handle_query : List ℕ → Option Handle → Plane → Plane
handle_query name none s = s
handle_query name (some reply_ep) s = record s {
  world = query_answer reply_ep (device_query_value name) s.world;
}

abbrev pub dispatch : ℕ → Option (ℕ × List ℕ) → Option Handle → Plane → Bool × Plane
dispatch from_pid none recv_cap s = (false, s)
dispatch from_pid (some (opcode, name)) recv_cap s =
    if opcode == req_register_service
    then (true, handle_register name from_pid recv_cap s)
    else if opcode == req_lookup_service
    then (true, handle_lookup name recv_cap s)
    else if opcode == req_device_query
    then (true, handle_query name recv_cap s)
    else (false, s)

unfoldable pub handle_control_plane_msg : ℕ → List ℕ → Option Handle → Plane → Bool × Plane
handle_control_plane_msg from_pid msg recv_cap s =
    dispatch from_pid (parse_control_req msg) recv_cap s

abbrev pub is_none {ℓ} : {A : Type ℓ} → Option A → Bool
is_none none = true
is_none (some a) = false

-- One message of the wait: whether it was the reply, and the state after it.
abbrev pub take_message : List ℕ → Recv → ℕ → Plane → Bool × Plane
take_message expected r n s =
    let msg = take n r.buf in
    if is_none r.recv_cap && (n == length expected) && bytes_eq msg expected
    then (true, s)
    else (false, (handle_control_plane_msg r.from_pid msg r.recv_cap s).1)

unfoldable pub wait_round : List ℕ → Plane → Bool × Plane
wait_round expected s =
    let (r, w) = sys_ipc_recv_timeout s.world in
    let s' : Plane = record s { world = w } in
    elim r.result [ none ↦ (false, s') | some n ↦ take_message expected r n s' ]

unfoldable pub wait_for_reply_or_control : List ℕ → ℕ → Plane → Bool × Plane
wait_for_reply_or_control expected zero s = (false, s)
wait_for_reply_or_control expected (suc tries) s =
    let (found, s') = wait_round expected s in
    let rest = wait_for_reply_or_control expected tries s' in if found then (true, s') else rest
