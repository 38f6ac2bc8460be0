-- ===== src/Helloworld/Served.antt =====
-- The program with the file service at the other end.
use mene_os.Base.{
  ℕ, ◌+◌, ◌*◌, ◌/◌, ◌%◌, ◌≡◌, ◌≤◌, refl, ◌∙◌, ap, subst, suc, true, false, List, ◌++◌, none, some,
  arith, length, take, drop, slice, to_le, from_le, take-append, drop-append,
}
use mathlib.Core.List.{append_assoc}
use mene_os.Base.Utf8.{is_utf8}
use mene_os.Abi.Fs
use mene_os.Fs.Requests.{Request, decode_request, path_arg, write_args}
use mene_os.Helloworld.{write_request, read_request}

abbrev pub plain : ℕ → ℕ → List ℕ → Request
plain opcode n buf = record {
  opcode = opcode;
  reqid_mode = false;
  req_id = none;
  req_len = n;
  req_buf = buf;
}

pub decode-write_request :
    (p bytes junk : List ℕ) (n : ℕ)
    → decode_request n (write_request p bytes ++ junk)
      ≡ plain Fs.req_write n (write_request p bytes ++ junk)
unfolding decode_request slice to_le from_le write_request
decode-write_request p bytes junk n = refl

pub decode-read_request :
    (p junk : List ℕ) (n : ℕ)
    → decode_request n (read_request p ++ junk) ≡ plain Fs.req_read n (read_request p ++ junk)
unfolding decode_request slice to_le from_le read_request
decode-read_request p junk n = refl

-- A message whose fields are these, with both lengths of the ranges behind the header.
write_args-fields :
    (p bytes buf : List ℕ)
    → from_le (slice 2 2 buf) ≡ length p
    → from_le (slice 4 4 buf) ≡ length bytes
    → slice 8 (length p) buf ≡ p
    → slice (8 + length p) (length bytes) buf ≡ bytes
    → 1 ≤ length p
    → length p ≤ Fs.max_path
    → length bytes ≤ Fs.max_data
    → is_utf8 p ≡ true
    → write_args (plain Fs.req_write (8 + length p + length bytes) buf) ≡ some (p, bytes)
unfolding write_args
write_args-fields p bytes buf path_len data_len path_at data_at some_path short small text =
    rw (path_len, data_len, path_at, data_at) (ground (arith, text, some_path, short, small))

-- The file service reads the path and the data out of a request of `fs_write`, whatever lies behind
-- the message in its buffer.
pub write_args-write_request :
    (p bytes junk : List ℕ)
    → 1 ≤ length p
    → length p ≤ Fs.max_path
    → length bytes ≤ Fs.max_data
    → is_utf8 p ≡ true
    → write_args (decode_request (8 + length p + length bytes) (write_request p bytes ++ junk))
      ≡ some (p, bytes)
unfolding slice to_le from_le write_request
write_args-write_request p bytes junk some_path short small text =
    let path_at : take (length p) ((p ++ bytes) ++ junk) ≡ p =
      rw (append_assoc p bytes junk) (take-append p (bytes ++ junk)) in
    let data_at : take (length bytes) (drop (length p) ((p ++ bytes) ++ junk)) ≡ bytes =
      rw (append_assoc p bytes junk, drop-append p (bytes ++ junk)) (take-append bytes junk) in
    let header : suc (suc (suc (suc (suc (suc (suc (suc (length p)))))))) ≡ 8 + length p =
      omega arith in
    let data_behind : slice (8 + length p) (length bytes) (write_request p bytes ++ junk) ≡ bytes =
      subst (λ k. slice k (length bytes) (write_request p bytes ++ junk) ≡ bytes) header data_at in
    ap write_args (decode-write_request p bytes junk (8 + length p + length bytes))
    ∙ write_args-fields p bytes (write_request p bytes ++ junk) (omega arith) (omega (arith, small))
        path_at data_behind some_path short small text

pub path_arg-read_request :
    (p junk : List ℕ)
    → 1 ≤ length p
    → length p ≤ Fs.max_path
    → is_utf8 p ≡ true
    → path_arg (decode_request (4 + length p) (read_request p ++ junk)) ≡ some p
unfolding path_arg decode_request slice to_le from_le read_request
path_arg-read_request p junk some_path short text =
    let size : length p % 256 + 256 * (length p / 256 % 256 + 256 * 0) ≡ length p = omega arith in
    rw (size, take-append p junk) (ground (arith, text, some_path, short))
