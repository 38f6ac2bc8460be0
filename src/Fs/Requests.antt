-- ===== src/Fs/Requests.antt =====
-- apps/fs/src/main.rs, `_start`: the fields of a request, and the frame of its reply.
pub mod Bounds
use mene_os.Base.{
  ℕ, zero, suc, ◌+◌, ◌-◌, ◌%◌, ◌^◌, ◌≡◌, ◌≢◌, ◌≤◌, ◌<◌, refl, ◌∙◌, ap, sym, Bool, true, false, not,
  ◌&&◌, ◌||◌, List, [], ◌∷◌, ◌++◌, Option, none, some, arith, length, take, drop, slice, ltb, leb,
  ◌==◌, if◌then◌else◌, to_le, from_le,
}
use mene_os.Base.Utf8.{is_utf8}
use mene_os.Abi.Fs

-- The opcode without its flag, whether the flag is set, the number of the request, if any, and the
-- message in its buffer.
pub record Request : Type 0 where
  pub opcode : ℕ
  pub reqid_mode : Bool
  pub req_id : Option ℕ
  pub req_len : ℕ
  pub req_buf : List ℕ

abbrev pub request_number : ℕ → Bool → ℕ → List ℕ → Option ℕ
request_number opcode false req_len buf = none
request_number opcode true req_len buf =
    if (opcode == Fs.req_write) && leb Fs.write_hdr_len_v2 req_len
    then some (from_le (slice 8 4 buf))
    else if leb Fs.path_hdr_len_v2 req_len
    then some (from_le (slice 4 4 buf))
    else none

-- `raw_opcode & FLAG_REQID` is the highest of the 16 bits.
unfoldable pub decode_request : ℕ → List ℕ → Request
decode_request req_len buf =
    let raw_opcode = from_le (slice 0 2 buf) in
    let opcode = raw_opcode % Fs.flag_reqid in
    let reqid_mode = leb Fs.flag_reqid raw_opcode in
    record {
      opcode = opcode;
      reqid_mode = reqid_mode;
      req_id = request_number opcode reqid_mode req_len buf;
      req_len = req_len;
      req_buf = buf;
    }

abbrev pub path_hdr_len : Request → ℕ
path_hdr_len r = if r.reqid_mode then Fs.path_hdr_len_v2 else Fs.path_hdr_len

abbrev pub write_hdr_len : Request → ℕ
write_hdr_len r = if r.reqid_mode then Fs.write_hdr_len_v2 else Fs.write_hdr_len

-- `core::str::from_utf8`
abbrev pub from_utf8 : List ℕ → Option (List ℕ)
from_utf8 bytes = if is_utf8 bytes then some bytes else none

-- The path of a request to read, delete or execute; `none` for `EINVAL`.
unfoldable pub path_arg : Request → Option (List ℕ)
path_arg r =
    let hdr = path_hdr_len r in
    let path_len = from_le (slice 2 2 r.req_buf) in
    if ltb r.req_len hdr
    then none
    else if path_len == 0 || ltb Fs.max_path path_len || ltb r.req_len (hdr + path_len)
    then none
    else from_utf8 (slice hdr path_len r.req_buf)

abbrev pub with_data : List ℕ → Option (List ℕ) → Option (List ℕ × List ℕ)
with_data bytes none = none
with_data bytes (some path) = some (path, bytes)

-- The path and the data of a request to write.
unfoldable pub write_args : Request → Option (List ℕ × List ℕ)
write_args r =
    let hdr = write_hdr_len r in
    let path_len = from_le (slice 2 2 r.req_buf) in
    let data_len = from_le (slice 4 4 r.req_buf) in
    if ltb r.req_len hdr
    then none
    else if path_len == 0
        || ltb Fs.max_path path_len
        || ltb Fs.max_data data_len
        || ltb r.req_len (hdr + path_len + data_len)
    then none
    else with_data (slice (hdr + path_len) data_len r.req_buf)
        (from_utf8 (slice hdr path_len r.req_buf))

-- The message of the closure `reply`.
unfoldable pub frame : Option ℕ → List ℕ → List ℕ
frame none payload = payload
frame (some id) payload = to_le Fs.resp_reqid_len id ++ payload

unfoldable pub trim_slashes : List ℕ → List ℕ
trim_slashes [] = []
trim_slashes (b ∷ bs) = if b == b'/' then trim_slashes bs else b ∷ bs

unfoldable pub normalize_path : List ℕ → List ℕ
normalize_path path = let p = trim_slashes path in if length p == 0 then b'_' ∷ [] else p
