-- ===== src/Helloworld/Run.antt =====
-- A run of the program against the file service.
use mene_os.Base.{
  ℕ, ◌≡◌, ◌<◌, refl, ◌∙◌, ap, true, false, List, [], ◌∷◌, ◌++◌, none, some, arith, length, take,
  replicate, subst, slice, to_le, from_le, ◌==◌, suc, bytes_eq,
}
use mene_os.Base.Utf8.{is_utf8}
use mene_os.Abi.Fs
use mene_os.Abi.Handle.{Handle, serial_endpoint}
use mene_os.Ulib.World.{RawRecv, World, do_send}
use mene_os.Ulib.Ipc.{sys_ipc_send}
use mene_os.Fs.BlkCall.{eagain}
use mene_os.Fs.FatFs.{FatFs, View, IsVolume}
use mene_os.Fs.Requests.{Request, decode_request, path_arg, write_args, normalize_path}
use mene_os.Fs.Service.{Server, ok}
use mene_os.Fs.Service.Files.{read_reply, writable}
use mene_os.Fs.Service.Refinement.{Files, Holds, put, spec}
use mene_os.Fs.Service.Sequences.{Rounds, all_file_ops, all_plain, spec_all, serve_all-refines}
use mene_os.Helloworld.{
  App, Line, started, write_begin, write_done, read_begin, read_done, test_passed, powering_off,
  judge, read_back, report, is_reply, write_request, read_request, path, content, greeting, start,
  fs_write, fs_read, log, fs_retry_max,
}
use mene_os.Helloworld.Retries.{
  AllSent, AllBusy, rest_after-AllSent, waited, exchanged, fs_write-waited, fs_read-waited,
}
use mene_os.Helloworld.Served.{
  write_args-write_request, path_arg-read_request, decode-write_request, decode-read_request,
}

-- The kernel delivers the payloads in their order, each behind fewer than 50 answers `EAGAIN`.
abbrev pub Delivered : List (List ℕ) → List RawRecv → Type 0
Delivered [] recvs = Unit {0}
Delivered (payload ∷ payloads) recvs =
    (busy : List RawRecv) × (r : RawRecv) × (rs : List RawRecv) × AllBusy busy
    × (length busy < fs_retry_max)
    × (r.ret ≡ length payload)
    × (take (length payload) r.bytes ≡ payload)
    × (recvs ≡ busy ++ r ∷ rs)
    × Delivered payloads rs

-- The two requests of the program as the file service reads them, with what lies behind them in its
-- buffer.
abbrev pub requests : Handle → List ℕ → List ℕ → List (Handle × Request)
requests cap junk junk' =
    (cap, decode_request 32 (write_request path content ++ junk))
    ∷ (cap, decode_request 13 (read_request path ++ junk'))
    ∷ []

requests_are_file_ops :
    (cap : Handle) (junk junk' : List ℕ) → all_file_ops (requests cap junk junk') ≡ true
unfolding decode_request slice to_le from_le write_request read_request
requests_are_file_ops cap junk junk' = refl

module _ (fat : FatFs) (view : View fat) (v : IsVolume fat view) where
  -- A request to write `p` that can be written is answered with `OK`, a request to read it then with
  -- its bytes.
  spec-write_request :
      (p bytes : List ℕ) (r : Request) (m : Files)
      → r.opcode ≡ Fs.req_write
      → write_args r ≡ some (p, bytes)
      → writable view.is_legal (normalize_path p) (m (normalize_path p)) ≡ true
      → spec fat view r m ≡ (ok, put fat view (normalize_path p) (some bytes) m)
  unfolding spec
  spec-write_request p bytes r m op args can = rw (args, op, can) refl

  spec-read_request :
      (p bytes : List ℕ) (r : Request) (m : Files)
      → r.opcode ≡ Fs.req_read
      → path_arg r ≡ some p
      → m (normalize_path p) ≡ some bytes
      → spec fat view r m ≡ (read_reply (some bytes), m)
  unfolding spec
  spec-read_request p bytes r m op arg there = rw (arg, op, there) refl

  requests_are_plain :
      (cap : Handle) (junk junk' : List ℕ)
      → view.is_plain (normalize_path path) ≡ true
      → all_plain fat view (requests cap junk junk') ≡ true
  unfolding is_utf8
  requests_are_plain cap junk junk' plain =
      let write =
        write_args-write_request path content junk (omega arith) (omega arith) (omega arith) refl in
      let written = ap (λ r. r.opcode) (decode-write_request path content junk 32) in
      let read = path_arg-read_request path junk' (omega arith) (omega arith) refl in
      let reading = ap (λ r. r.opcode) (decode-read_request path junk' 13) in
      rw (write, written, read, reading, plain) refl

  -- The file service answers the two requests with `OK` and with the content.
  pub spec_all-requests :
      (cap : Handle) (junk junk' : List ℕ) (m : Files)
      → writable view.is_legal (normalize_path path) (m (normalize_path path)) ≡ true
      → (spec_all fat view (requests cap junk junk') m).0 ≡ ok ∷ content ∷ []
  unfolding spec_all is_utf8
  spec_all-requests cap junk junk' m can =
      let p = normalize_path path in
      let first : spec fat view (decode_request 32 (write_request path content ++ junk)) m
          ≡ (ok, put fat view p (some content) m) =
        spec-write_request path content (decode_request 32 (write_request path content ++ junk)) m
          (ap (λ r. r.opcode) (decode-write_request path content junk 32))
          (write_args-write_request path content junk (omega arith) (omega arith) (omega arith)
            refl)
          can in
      let second : spec fat view (decode_request 13 (read_request path ++ junk'))
            (put fat view p (some content) m)
          ≡ (content, put fat view p (some content) m) =
        spec-read_request path content (decode_request 13 (read_request path ++ junk'))
          (put fat view p (some content) m) (ap (λ r. r.opcode) (decode-read_request path junk' 13))
          (path_arg-read_request path junk' (omega arith) (omega arith) refl)
          (rw (v.reflexive p) refl) in
      rw (first, second) refl

abbrev pub passed : List Line
passed =
    started ∷ write_begin ∷ write_done ∷ read_begin ∷ read_done ∷ test_passed ∷ powering_off ∷ []

not_eagain :
    (r : RawRecv) (payload : List ℕ)
    → r.ret ≡ length payload
    → (length payload == 6) ≡ false
    → is_reply eagain r.ret r.bytes ≡ false
not_eagain r payload size other = rw (size, other) refl

greeted-AllSent :
    (h : Handle) (msg : List ℕ) (w : World)
    → AllSent w.send_rets
    → AllSent (sys_ipc_send h msg none w).send_rets
unfolding sys_ipc_send do_send
greeted-AllSent h msg w sends = by_rets w.send_rets sends
  where
    by_rets :
        (rets : List ℕ)
        → AllSent rets
        → AllSent (sys_ipc_send h msg none (record w { send_rets = rets })).send_rets
    by_rets [] h = h
    by_rets (ret ∷ rets) h = h.1

-- The two calls and the report, from a program `a` whose kernel delivers the two payloads.
read_back-fs_write :
    (a : App) (resp : List ℕ)
    → AllSent a.world.send_rets
    → Delivered (ok ∷ content ∷ []) a.world.recvs
    → (read_back (fs_write path content resp a)).logged
      ≡ (((a.logged ++ write_done ∷ []) ++ read_begin ∷ []) ++ read_done ∷ []) ++ test_passed ∷ []
unfolding waited exchanged report bytes_eq
read_back-fs_write a resp sends (b1, r1, rs1, busy1, short1, size1, is_ok, e1, more) =
    let (b2, r2, rs2, busy2, short2, size2, is_content, e2, end) = more in
    let b = waited (suc (length b1)) (length b1) (write_request path content) rs1 a in
    let b' : App = log read_begin (log write_done b) in
    let c = waited (suc (length b2)) (length b2) (read_request path) rs2 b' in
    let first : fs_write path content resp a ≡ (is_reply ok r1.ret r1.bytes, r1.bytes, b) =
      fs_write-waited path content resp b1 r1 rs1 a sends busy1 short1 (not_eagain r1 ok size1 refl)
        e1 in
    let said : is_reply ok r1.ret r1.bytes ≡ true = rw (size1, is_ok) refl in
    let second : fs_read path r1.bytes b' ≡ (r2.ret, r2.bytes, c) =
      fs_read-waited path r1.bytes b2 r2 rs2 b'
        (rest_after-AllSent (suc (length b1)) a.world.send_rets sends) busy2 short2
        (not_eagain r2 content size2 refl) e2 in
    ap (λ x. (read_back x).logged) (first ∙ ap (λ x. (x, r1.bytes, b)) said)
    ∙ ap (λ x. (judge true x).logged) (second ∙ ap (λ x. (x, r2.bytes, c)) size2)
    ∙ rw is_content refl

-- If the kernel takes the messages and delivers `OK` and the content, each behind fewer than 50
-- answers `EAGAIN`, the program logs that the test has passed.
start-Delivered :
    (w : World)
    → AllSent w.send_rets
    → Delivered (ok ∷ content ∷ []) w.recvs
    → (start w).logged ≡ passed
unfolding start sys_ipc_send do_send
start-Delivered w sends delivered =
    let a : App = record {
      world = sys_ipc_send serial_endpoint greeting none w;
      slept = [];
      logged = started ∷ write_begin ∷ [];
    } in
    ap (◌++ powering_off ∷ []) (
      read_back-fs_write a (replicate 256 0) (greeted-AllSent serial_endpoint greeting w sends)
        delivered)

module _ (fat : FatFs) (view : View fat) (v : IsVolume fat view) where
  -- On a volume that has room and whose transfers do not fail, holding the files `m`, among which
  -- "hello.txt" can be opened or created: a mounted file service that is handed the two requests of
  -- the program with a capability to reply to answers them in rounds of its own, and if the program is
  -- delivered the payloads of these rounds, each behind fewer than 50 answers `EAGAIN`, then it logs
  -- that its test has passed. The kernel as it is hands over no capability.
  start-serve_all :
      (cap : Handle) (junk junk' : List ℕ) (s : Server fat) (fs : fat.Fs) (m : Files) (w : World)
      → s.fs ≡ some fs
      → Holds fat view fs m
      → view.is_plain (normalize_path path) ≡ true
      → writable view.is_legal (normalize_path path) (m (normalize_path path)) ≡ true
      → AllSent w.send_rets
      → Delivered (spec_all fat view (requests cap junk junk') m).0 w.recvs
      → (u : Server fat) × (Rounds fat view
          (requests cap junk junk')
          (spec_all fat view (requests cap junk junk') m).0
          s
          u)
        × ((start w).logged ≡ passed)
  start-serve_all cap junk junk' s fs m w mounted h plain can sends delivered =
      let (u, fs', rounds, mounted', h') =
        serve_all-refines fat view v (requests cap junk junk') s fs m
          (requests_are_file_ops cap junk junk')
          (requests_are_plain fat view v cap junk junk' plain) mounted h in
      (
        u,
        rounds,
        start-Delivered w sends (
            subst (λ x. Delivered x w.recvs) (spec_all-requests fat view v cap junk junk' m can)
              delivered),
      )
