-- ===== src/Init/ControlPlane/Requests.antt =====
-- The control plane understands what ulib sends, and ulib what the control plane answers.
use mene_os.Base.{
  ℕ, ◌+◌, ◌*◌, ◌/◌, ◌%◌, ◌≤◌, ◌<◌, ◌^◌, ◌≡◌, ap, List, ◌++◌, none, some, arith, length, slice,
  to_le, from_le, from_le-to_le, length-append, take-append, bytes_eq,
}
use mene_os.Ulib.Control.{control_request, query_reply}
use mene_os.Init.ControlPlane.{parse_control_req, ok_text, device_query_value}

-- Whatever follows it in the buffer, a request that ulib builds for a name of 1 to 32 bytes is
-- read back as its opcode and its name.
pub parse-control_request :
    (opcode : ℕ) (name rest : List ℕ)
    → opcode < 2 ^ 16
    → 0 < length name
    → length name ≤ 32
    → parse_control_req (control_request opcode name ++ rest) ≡ some (opcode, name)
unfolding parse_control_req control_request slice to_le from_le
parse-control_request opcode name rest o lo hi =
    let size : opcode % 256 + 256 * (opcode / 256 % 256 + 256 * 0) ≡ opcode = omega arith in
    let name_size : length name % 256 + 256 * (length name / 256 % 256 + 256 * 0) ≡ length name =
      omega arith in
    rw (size, name_size) (ground (arith, take-append name rest, length-append name rest))

device_query_value-lt : (key : List ℕ) (v : ℕ) → device_query_value key ≡ some v → v < 2 ^ 64
unfolding device_query_value
device_query_value-lt key v h = ground arith

-- A device query for a key that init knows is answered by bytes from which ulib reads the value.
pub query_reply_value :
    (key : List ℕ) (v : ℕ) (from_pid : ℕ) (rest : List ℕ)
    → device_query_value key ≡ some v
    → query_reply (record {
      result = some 10;
      buf = (ok_text ++ to_le 8 v) ++ rest;
      from_pid = from_pid;
      recv_cap = none;
    })
      ≡ some v
unfolding to_le slice bytes_eq
query_reply_value key v from_pid rest h =
    ap some (from_le-to_le 8 v (device_query_value-lt key v h))
