-- ===== src/Helloworld.antt =====
-- apps/helloworld/src/main.rs: a client of the file service.
pub mod Retries
pub mod Served
pub mod Run
mod Tests
use mene_os.Base.{
  ℕ, zero, suc, Bool, true, false, not, ◌&&◌, List, [], ◌∷◌, ◌++◌, Option, none, some, length, take,
  leb, ◌==◌, if◌then◌else◌, bytes_eq, to_le, replicate,
}
use mene_os.Abi.Fs
use mene_os.Abi.Handle.{fs_endpoint, local_endpoint, serial_endpoint}
use mene_os.Ulib.World.{World}
use mene_os.Ulib.Ipc.{sys_ipc_send, sys_ipc_send_checked, sys_ipc_recv}
use mene_os.Fs.BlkCall.{eagain}
use mene_os.Fs.Service.{ok, enoent}

abbrev pub fs_retry_max : ℕ
fs_retry_max = 50

abbrev pub fs_retry_sleep_ms : ℕ
fs_retry_sleep_ms = 20

-- The messages of `_start` to the log, in the order of the source.
pub data Line : Type 0 where
  started write_begin write_done read_begin read_done test_passed : Line
  write_not_ok write_eagain read_not_ok read_enoent read_eagain test_failed powering_off : Line

-- The kernel, the times that the program slept for, in ms, and what it wrote to the log.
pub record App : Type 0 where
  pub world : World
  pub slept : List ℕ
  pub logged : List Line

abbrev pub sleep_ms : ℕ → App → App
sleep_ms ms a = record a { slept = a.slept ++ ms ∷ [] }

-- What a call leaves: the returned length, the response buffer and the kernel.
abbrev pub Called : Type 0
Called = ℕ × List ℕ × World

abbrev pub await_reply : List ℕ → Bool × World → Called
await_reply resp (false, w) = (0, resp, w)
await_reply resp (true, w) = let (r, w') = sys_ipc_recv w in (r.len, r.buf, w')

unfoldable pub fs_call : List ℕ → List ℕ → World → Called
fs_call req resp w = await_reply resp (sys_ipc_send_checked fs_endpoint req (some local_endpoint) w)

-- `len == text.len() && &resp[..len] == text`. The buffer of `_start` has 256 bytes, so that the
-- slices stay inside.
abbrev pub is_reply : List ℕ → ℕ → List ℕ → Bool
is_reply text len resp = len == length text && bytes_eq (take (length text) resp) text

-- What a round of the loops does with the answer; `next` goes on.
abbrev pub after_call :
    (List ℕ → App → Option ℕ × List ℕ × App) → App → Called → Option ℕ × List ℕ × App
after_call next a (len, resp, w) =
    let a' = record a { world = w } in
    if is_reply eagain len resp
    then next resp (sleep_ms fs_retry_sleep_ms a')
    else (some len, resp, a')

-- The loop of `fs_write` and `fs_read`, which build the same request in each round: the length that
-- is not `EAGAIN`, `none` after the last round.
unfoldable pub retry : ℕ → List ℕ → List ℕ → App → Option ℕ × List ℕ × App
retry zero req resp a = (none, resp, a)
retry (suc n) req resp a = after_call (retry n req) a (fs_call req resp a.world)

unfoldable pub write_request : List ℕ → List ℕ → List ℕ
write_request p bytes =
    to_le 2 Fs.req_write ++ (to_le 2 (length p) ++ (to_le 4 (length bytes) ++ (p ++ bytes)))

unfoldable pub read_request : List ℕ → List ℕ
read_request p = to_le 2 Fs.req_read ++ (to_le 2 (length p) ++ p)

abbrev pub written : Option ℕ × List ℕ × App → Bool × List ℕ × App
written (none, resp, a) = (false, resp, a)
written (some len, resp, a) = (is_reply ok len resp, resp, a)

unfoldable pub fs_write : List ℕ → List ℕ → List ℕ → App → Bool × List ℕ × App
fs_write p bytes resp a = written (retry fs_retry_max (write_request p bytes) resp a)

abbrev pub read_len : Option ℕ × List ℕ × App → ℕ × List ℕ × App
read_len (none, resp, a) = (0, resp, a)
read_len (some len, resp, a) = (len, resp, a)

unfoldable pub fs_read : List ℕ → List ℕ → App → ℕ × List ℕ × App
fs_read p resp a = read_len (retry fs_retry_max (read_request p) resp a)

-- "Hello World from mmap Vec!!"
abbrev pub greeting : List ℕ
greeting =
    b'H' ∷ b'e' ∷ b'l' ∷ b'l' ∷ b'o' ∷ b' ' ∷ b'W' ∷ b'o' ∷ b'r' ∷ b'l' ∷ b'd' ∷ b' ' ∷ b'f' ∷ b'r'
    ∷ b'o' ∷ b'm' ∷ b' ' ∷ b'm' ∷ b'm' ∷ b'a' ∷ b'p' ∷ b' ' ∷ b'V' ∷ b'e' ∷ b'c' ∷ b'!' ∷ b'!' ∷ []

-- "hello.txt"
abbrev pub path : List ℕ
path = b'h' ∷ b'e' ∷ b'l' ∷ b'l' ∷ b'o' ∷ b'.' ∷ b't' ∷ b'x' ∷ b't' ∷ []

-- "mene-fs-content"
abbrev pub content : List ℕ
content =
    b'm' ∷ b'e' ∷ b'n' ∷ b'e' ∷ b'-' ∷ b'f' ∷ b's' ∷ b'-' ∷ b'c' ∷ b'o' ∷ b'n' ∷ b't' ∷ b'e' ∷ b'n'
    ∷ b't' ∷ []

abbrev pub log : Line → App → App
log line a = record a { logged = a.logged ++ line ∷ [] }

abbrev pub log_if : Bool → Line → App → App
log_if b line a = if b then log line a else a

-- The report of `_start`. The buffer of the response is the one that both calls used.
unfoldable pub report : Bool → Bool → ℕ → List ℕ → App → App
report write_ok read_ok rd resp a =
    let write_part =
      if write_ok
      then a
      else log_if (bytes_eq (take 6 resp) eagain) write_eagain (log write_not_ok a) in
    let read_part =
      if read_ok
      then write_part
      else if is_reply enoent rd resp
      then log read_enoent (log read_not_ok write_part)
      else log_if (is_reply eagain rd resp) read_eagain (log read_not_ok write_part) in
    if write_ok && read_ok then log test_passed a else log test_failed read_part

abbrev pub judge : Bool → ℕ × List ℕ × App → App
judge write_ok (rd, resp, a) =
    report write_ok (leb (length content) rd && bytes_eq (take (length content) resp) content) rd
      resp (log read_done a)

abbrev pub read_back : Bool × List ℕ × App → App
read_back (write_ok, resp, a) =
    judge write_ok (fs_read path resp (log read_begin (log write_done a)))

-- `_start`, up to the call that powers the machine off.
unfoldable pub start : World → App
start w =
    let a : App = record {
      world = sys_ipc_send serial_endpoint greeting none w;
      slept = [];
      logged = started ∷ write_begin ∷ [];
    } in
    sleep_ms 2000 (log powering_off (read_back (fs_write path content (replicate 256 0) a)))
