-- ===== src/Ulib/Control.antt =====
-- apps/ulib/src/lib.rs: `ctl_register_service`, `ctl_lookup_service`, `ctl_device_query_usize`.
use mene_os.Base.{
  ℕ, Bool, true, false, ◌&&◌, ◌||◌, not, List, [], ◌∷◌, ◌++◌, Option, none, some, length, slice,
  take, ltb, leb, ◌==◌, if◌then◌else◌, bytes_eq, to_le, from_le,
}
use mene_os.Abi.Handle.{Handle, local_endpoint, init_endpoint}
use mene_os.Abi.Control.{
  req_register_service, req_lookup_service, req_device_query, max_service_name,
}
use mene_os.Ulib.World.{World}
use mene_os.Ulib.Ipc.{Recv, sys_ipc_send_checked, sys_ipc_recv_timeout}

-- `n.is_empty() || n.len() > MAX_SERVICE_NAME`
abbrev pub bad_name : List ℕ → Bool
bad_name n = length n == 0 || ltb max_service_name (length n)

-- The bytes that the three calls send.
unfoldable pub control_request : ℕ → List ℕ → List ℕ
control_request opcode n = to_le 2 opcode ++ (to_le 2 (length n) ++ n)

abbrev send_request : ℕ → List ℕ → World → Bool × World
send_request opcode n w =
    sys_ipc_send_checked init_endpoint (control_request opcode n) (some local_endpoint) w

unfoldable pub ctl_register_service : List ℕ → World → Bool × World
ctl_register_service name w =
    if bad_name name then (false, w) else send_request req_register_service name w

abbrev pub ok_text : List ℕ
ok_text = b'O' ∷ b'K' ∷ []

abbrev pub lookup_reply : Recv → Option Handle
lookup_reply r = elim r.result [
  | none ↦ none
  | some n ↦ if leb 2 n && bytes_eq (take 2 r.buf) ok_text then r.recv_cap else none
]

-- A reply is awaited only if the request was sent.
abbrev await {ℓ} : {A : Type ℓ} → (Recv → Option A) → Bool × World → Option A × World
await f (false, w) = (none, w)
await f (true, w) = let (r, w') = sys_ipc_recv_timeout w in (f r, w')

unfoldable pub ctl_lookup_service : List ℕ → World → Option Handle × World
ctl_lookup_service name w =
    if bad_name name then (none, w) else await lookup_reply (send_request req_lookup_service name w)

abbrev pub query_reply : Recv → Option ℕ
query_reply r = elim r.result [
  | none ↦ none
  | some n ↦
      if ltb n 10 || not (bytes_eq (take 2 r.buf) ok_text)
      then none
      else some (from_le (slice 2 8 r.buf))
]

unfoldable pub ctl_device_query_usize : List ℕ → World → Option ℕ × World
ctl_device_query_usize key w =
    if bad_name key then (none, w) else await query_reply (send_request req_device_query key w)
