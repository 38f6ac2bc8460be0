-- ===== src/Kernel/Syscall/Writev.antt =====
-- What a `writev` leaves in the mailbox of the serial service.
use mene_os.Base.{
  ℕ, ◌+◌, ◌^◌, ◌<◌, ◌≡◌, refl, sym, ◌∙◌, ap, List, [], ◌∷◌, ◌++◌, Option, none, some, arith, length,
  ◌==◌, if◌then◌else◌, ok, Bool-cases, inl, inr, Option-cases,
}
use mathlib.Core.List.{append_assoc, append-nil}
use mene_os.Base.BTreeMap.{get, get-modify}
use mene_os.Abi.Handle.{serial_endpoint}
use mene_os.Abi.Handle
use mene_os.Ipc.Endpoint.{IpcPayload, new_payload, Endpoint}
use mene_os.Ipc.Manager.{find_endpoint, Endpoints, u64, send}
use mene_os.Kernel.Syscall.{Kernel, Iovec, linux_write_serial, writev_loop, writev, saturating_add}

-- The entries whose pointers hold as many bytes as they say.
unfoldable pub IsVector : List Iovec → Type 0
IsVector [] = Unit
IsVector (v ∷ vs) =
    ((bytes : List ℕ) × (v.base ≡ some bytes) × (length bytes ≡ v.base_len)) × IsVector vs

-- The bytes of an entry.
abbrev bytes_of : Option (List ℕ) → List ℕ
bytes_of none = []
bytes_of (some bytes) = bytes

-- The messages of the entries that hold bytes, and the number of their bytes.
pub messages : ℕ → List Iovec → List IpcPayload
messages pid [] = []
messages pid (v ∷ vs) =
    let rest = messages pid vs in
    if v.base_len == 0 then rest else new_payload (bytes_of v.base) (u64 pid) ∷ rest

unfoldable pub total_len : List Iovec → ℕ
total_len [] = 0
total_len (v ∷ vs) = v.base_len + total_len vs

abbrev queue_of : Option Endpoint → Option (List IpcPayload)
queue_of none = none
queue_of (some ep) = some ep.queue

-- What is waiting for the serial service.
unfoldable pub serial_queue : Kernel → Option (List IpcPayload)
serial_queue k = queue_of (find_endpoint (Handle.to_usize serial_endpoint) k.endpoints)

send-queue :
    (pid to : ℕ) (bytes : List ℕ) (eps : Endpoints) (queue : List IpcPayload)
    → queue_of (find_endpoint to eps) ≡ some queue
    → ((send pid to bytes 0 eps).0 ≡ ok tt)
      × (queue_of (find_endpoint to (send pid to bytes 0 eps).1)
          ≡ some (queue ++ new_payload bytes (u64 pid) ∷ []))
unfolding send
send-queue pid to bytes none queue h = ground (arith, h)
send-queue pid to bytes (some m) queue h = elim (Option-cases (get to m)) [
  | inl e ↦ ground (arith, h, e)
  | inr (ep, e) ↦ rw e (refl, rw get-modify (ground (arith, h, e)))
]

linux_write_serial-queue :
    (pid : ℕ) (bytes : List ℕ) (k : Kernel) (queue : List IpcPayload)
    → serial_queue k ≡ some queue
    → ((linux_write_serial pid bytes k).0 ≡ ok (length bytes))
      × (serial_queue (linux_write_serial pid bytes k).1
          ≡ some (queue ++ new_payload bytes (u64 pid) ∷ []))
unfolding linux_write_serial serial_queue
linux_write_serial-queue pid bytes k queue h =
    let (sent, queued) =
      send-queue pid (Handle.to_usize serial_endpoint) bytes k.endpoints queue h in
    (rw sent refl, queued)

saturating_add-lt : (n m : ℕ) → n + m < 2 ^ 64 → saturating_add n m ≡ n + m
saturating_add-lt n m h = ground arith

writev_loop-queue :
    (pid : ℕ) (vs : List Iovec) (total : ℕ) (k : Kernel) (queue : List IpcPayload)
    → IsVector vs
    → total + total_len vs < 2 ^ 64
    → serial_queue k ≡ some queue
    → ((writev_loop pid vs total k).0 ≡ ok (total + total_len vs))
      × (serial_queue (writev_loop pid vs total k).1 ≡ some (queue ++ messages pid vs))
unfolding writev_loop IsVector total_len messages
writev_loop-queue pid [] total k queue good small h =
    (ap ok (omega arith), h ∙ ap some (sym (append-nil queue)))
writev_loop-queue pid (v ∷ vs) total k queue ((bytes, e, len), good) small h =
    elim (Bool-cases (v.base_len == 0)) [
      | inl zero_len ↦
          let none_left : v.base_len ≡ 0 = ground (arith, zero_len) in
          let same : 0 + total_len vs ≡ total_len vs = omega arith in
          rw (zero_len, none_left, same)
            (writev_loop-queue pid vs total k queue good (omega (arith, small)) h)
      | inr some_len ↦
          let (sent, queued) = linux_write_serial-queue pid bytes k queue h in
          let k' = (linux_write_serial pid bytes k).1 in
          let rest = writev_loop-queue pid vs (total + v.base_len) k' _ good (omega arith) queued in
          let added = saturating_add-lt total v.base_len (omega (arith, small)) in
          rw (some_len, e, sent, added)
            (
              rest.0 ∙ ap ok (omega arith),
              rest.1
                  ∙ ap some
                      (append_assoc queue (new_payload bytes (u64 pid) ∷ []) (messages pid vs)),
            )
    ]

-- A `writev` of entries that hold the bytes they say, of fewer than 2 ^ 64 bytes in all, by a
-- process while the serial service has an endpoint: the call returns the number of the bytes, and
-- appends to what waits for the service one message for each entry that is not empty, in order.
pub writev_serial :
    (pid cnt : ℕ) (vs : List Iovec) (k : Kernel) (queue : List IpcPayload)
    → IsVector vs
    → total_len vs < 2 ^ 64
    → serial_queue k ≡ some queue
    → ((writev pid (some vs) cnt k).0 ≡ ok (total_len vs))
      × (serial_queue (writev pid (some vs) cnt k).1 ≡ some (queue ++ messages pid vs))
unfolding writev
writev_serial pid cnt vs k queue good small h =
    let (r, q) = writev_loop-queue pid vs 0 k queue good (omega (arith, small)) h in
    (r ∙ ap ok (omega arith), q)
