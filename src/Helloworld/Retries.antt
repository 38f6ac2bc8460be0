-- ===== src/Helloworld/Retries.antt =====
-- The loops of `fs_write` and `fs_read` against the answers that the kernel delivers.
use mene_os.Base.{
  ℕ, zero, suc, ◌≡◌, ◌≤◌, ◌<◌, refl, sym, ◌∙◌, ap, Bool, true, false, List, [], ◌∷◌, ◌++◌, some,
  arith, length, replicate, Bool-cases, inl, inr,
}
use mathlib.Core.List.{append_assoc, append-nil}
use mene_os.Abi.Handle.{fs_endpoint, local_endpoint, to_usize}
use mene_os.Ulib.World.{RawRecv, Sent, World, next_recv, do_send}
use mene_os.Ulib.Ipc.{sys_ipc_send_checked, sys_ipc_recv, is_nonneg}
use mene_os.Fs.BlkCall.{eagain}
use mene_os.Fs.Service.{ok}
use mene_os.Helloworld.{
  App, fs_call, is_reply, retry, sleep_ms, after_call, await_reply, fs_retry_max, fs_retry_sleep_ms,
  fs_write, fs_read, write_request, read_request, written, read_len,
}

-- The kernel takes every message.
abbrev pub AllSent : List ℕ → Type 0
AllSent [] = Unit {0}
AllSent (ret ∷ rets) = (is_nonneg ret ≡ true) × AllSent rets

-- The file service asks to try again.
abbrev pub AllBusy : List RawRecv → Type 0
AllBusy [] = Unit {0}
AllBusy (r ∷ rs) = (is_reply eagain r.ret r.bytes ≡ true) × AllBusy rs

abbrev pub to_fs : List ℕ → Sent
to_fs req = record {
  handle = to_usize fs_endpoint;
  message = req;
  passed = to_usize local_endpoint;
}

abbrev pub rest : List ℕ → List ℕ
rest [] = []
rest (r ∷ rs) = rs

abbrev pub rest_after : ℕ → List ℕ → List ℕ
rest_after zero rets = rets
rest_after (suc n) rets = rest_after n (rest rets)

rest-AllSent : (rets : List ℕ) → AllSent rets → AllSent (rest rets)
rest-AllSent [] h = h
rest-AllSent (r ∷ rs) h = h.1

pub rest_after-AllSent : (n : ℕ) (rets : List ℕ) → AllSent rets → AllSent (rest_after n rets)
rest_after-AllSent zero rets h = h
rest_after-AllSent (suc n) rets h = rest_after-AllSent n (rest rets) (rest-AllSent rets h)

-- The kernel after `n` requests to the file service that were answered.
unfoldable pub exchanged : ℕ → List ℕ → List RawRecv → World → World
exchanged n req recvs w = record w {
  recvs = recvs;
  send_rets = rest_after n w.send_rets;
  sent = w.sent ++ replicate n (to_fs req);
}

sent_to_fs :
    (req : List ℕ) (w : World)
    → AllSent w.send_rets
    → sys_ipc_send_checked fs_endpoint req (some local_endpoint) w
      ≡ (true, exchanged 1 req w.recvs w)
unfolding sys_ipc_send_checked do_send exchanged
sent_to_fs req w h = by_rets w.send_rets h
  where
    by_rets :
        (rets : List ℕ)
        → AllSent rets
        → sys_ipc_send_checked fs_endpoint req (some local_endpoint) (record w { send_rets = rets })
          ≡ (true, exchanged 1 req w.recvs (record w { send_rets = rets }))
    by_rets [] h = refl
    by_rets (ret ∷ rets) h = rw h.0 refl

-- A request that the kernel takes leaves the next answer.
fs_call-exchanged :
    (req resp : List ℕ) (r : RawRecv) (rs : List RawRecv) (w : World)
    → AllSent w.send_rets
    → w.recvs ≡ r ∷ rs
    → fs_call req resp w ≡ (r.ret, r.bytes, exchanged 1 req rs w)
unfolding fs_call sys_ipc_recv next_recv exchanged
fs_call-exchanged req resp r rs w sends next =
    ap (await_reply resp) (sent_to_fs req w sends) ∙ rw next refl

-- The program after `n` such requests, `k` of which it slept after.
unfoldable pub waited : ℕ → ℕ → List ℕ → List RawRecv → App → App
waited n k req rs a = record a {
  world = exchanged n req rs a.world;
  slept = a.slept ++ replicate k fs_retry_sleep_ms;
}

abbrev asked_again : List ℕ → List RawRecv → App → App
asked_again req rs a = sleep_ms fs_retry_sleep_ms (record a { world = exchanged 1 req rs a.world })

waited-asked_again :
    (k : ℕ) (req : List ℕ) (rs last : List RawRecv) (a : App)
    → waited (suc k) k req last (asked_again req rs a) ≡ waited (suc (suc k)) (suc k) req last a
unfolding waited exchanged
waited-asked_again k req rs last a =
    rw
      (
        append_assoc a.slept (fs_retry_sleep_ms ∷ []) (replicate k fs_retry_sleep_ms),
        append_assoc a.world.sent (to_fs req ∷ []) (replicate (suc k) (to_fs req)),
      )
      refl

-- As long as fewer rounds than the loop has are answered by `EAGAIN`, the loop ends with the next
-- answer.
pub retry-waited :
    (n : ℕ) (req resp : List ℕ) (busy : List RawRecv) (r : RawRecv) (rs : List RawRecv) (a : App)
    → AllSent a.world.send_rets
    → AllBusy busy
    → length busy < n
    → is_reply eagain r.ret r.bytes ≡ false
    → a.world.recvs ≡ busy ++ r ∷ rs
    → retry n req resp a ≡ (some r.ret, r.bytes, waited (suc (length busy)) (length busy) req rs a)
unfolding retry waited exchanged
retry-waited zero req resp busy r rs a sends all short last next = elim short [ ]
retry-waited (suc n) req resp [] r rs a sends all short last next =
    ap (after_call (retry n req) a) (fs_call-exchanged req resp r rs a.world sends next)
    ∙ rw (last, append-nil a.slept) refl
retry-waited (suc n) req resp (b ∷ busy) r rs a sends all short last next =
    let a' = asked_again req (busy ++ r ∷ rs) a in
    let go : retry n req b.bytes a'
        ≡ (some r.ret, r.bytes, waited (suc (length busy)) (length busy) req rs a') =
      retry-waited n req b.bytes busy r rs a' (rest-AllSent a.world.send_rets sends) all.1
        (omega (arith, short)) last refl in
    ap (after_call (retry n req) a)
      (fs_call-exchanged req resp b (busy ++ r ∷ rs) a.world sends next)
    ∙ rw all.0 go
    ∙ ap (λ x. (some r.ret, r.bytes, x))
        (waited-asked_again (length busy) req (busy ++ r ∷ rs) rs a)

-- If the kernel takes every request and the file service answers fewer than 50 times with `EAGAIN`
-- and then with something else, `fs_write` says whether this answer is `OK`. It has then sent its
-- request once more than it got `EAGAIN`, has slept 20 ms after each `EAGAIN`, and the answers behind
-- the last one are still to be received.
pub fs_write-waited :
    (p bytes resp : List ℕ) (busy : List RawRecv) (r : RawRecv) (rs : List RawRecv) (a : App)
    → AllSent a.world.send_rets
    → AllBusy busy
    → length busy < fs_retry_max
    → is_reply eagain r.ret r.bytes ≡ false
    → a.world.recvs ≡ busy ++ r ∷ rs
    → fs_write p bytes resp a ≡ (
      is_reply ok r.ret r.bytes,
      r.bytes,
      waited (suc (length busy)) (length busy) (write_request p bytes) rs a,
    )
unfolding fs_write
fs_write-waited p bytes resp busy r rs a sends all short last next =
    ap written
      (retry-waited fs_retry_max (write_request p bytes) resp busy r rs a sends all short last next)

pub fs_read-waited :
    (p resp : List ℕ) (busy : List RawRecv) (r : RawRecv) (rs : List RawRecv) (a : App)
    → AllSent a.world.send_rets
    → AllBusy busy
    → length busy < fs_retry_max
    → is_reply eagain r.ret r.bytes ≡ false
    → a.world.recvs ≡ busy ++ r ∷ rs
    → fs_read p resp a
      ≡ (r.ret, r.bytes, waited (suc (length busy)) (length busy) (read_request p) rs a)
unfolding fs_read
fs_read-waited p resp busy r rs a sends all short last next =
    ap read_len
      (retry-waited fs_retry_max (read_request p) resp busy r rs a sends all short last next)

await_reply_sent : (resp : List ℕ) (x : Bool × World) → (await_reply resp x).2.sent ≡ x.1.sent
unfolding sys_ipc_recv next_recv
await_reply_sent resp (false, w) = refl
await_reply_sent resp (true, w) = refl

fs_call-sent :
    (req resp : List ℕ) (w : World) → (fs_call req resp w).2.sent ≡ w.sent ++ to_fs req ∷ []
unfolding fs_call sys_ipc_send_checked do_send
fs_call-sent req resp w =
    await_reply_sent resp (sys_ipc_send_checked fs_endpoint req (some local_endpoint) w)

-- Whatever the kernel and the file service answer, a loop of `n` rounds sends its request at most
-- `n` times.
retry-bounded :
    (n : ℕ) (req resp : List ℕ) (a : App)
    → (k : ℕ) × (k ≤ n)
      × ((retry n req resp a).2.world.sent ≡ a.world.sent ++ replicate k (to_fs req))
unfolding retry
retry-bounded zero req resp a = (0, omega arith, sym (append-nil a.world.sent))
retry-bounded (suc n) req resp a =
    let (len, resp', w) = fs_call req resp a.world in
    let a' : App = sleep_ms fs_retry_sleep_ms (record a { world = w }) in
    elim (Bool-cases (is_reply eagain len resp')) [
      | inl again ↦
          let (k, le, sent) = retry-bounded n req resp' a' in
          rw again (
            suc k,
            omega (arith, le),
            sent
                ∙ ap (◌++ replicate k (to_fs req)) (fs_call-sent req resp a.world)
                ∙ append_assoc a.world.sent (to_fs req ∷ []) (replicate k (to_fs req)),
          )
      | inr answered ↦ rw answered (1, omega arith, fs_call-sent req resp a.world)
    ]
