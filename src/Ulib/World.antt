-- ===== src/Ulib/World.antt =====
-- What an app sees of the kernel. The instruction `svc` in `syscall` of apps/ulib/src/lib.rs
-- leaves to the environment what a call returns: the results of the calls to come stand in
-- lists, and the messages that were sent are kept in order.
use mene_os.Base.{ℕ, ◌-◌, ◌^◌, List, [], ◌∷◌, ◌++◌}

-- One `IpcRecvTimeout` call: the value in `x0`, the buffer that it leaves (whose length the call
-- cannot change), and the two words that it writes behind `meta_ptr`.
pub record RawRecv : Type 0 where
  pub ret : ℕ
  pub bytes : List ℕ
  pub meta0 : ℕ
  pub meta1 : ℕ

-- One `IpcSend` call: the handle, the message and the number of the passed capability.
pub record Sent : Type 0 where
  pub handle : ℕ
  pub message : List ℕ
  pub passed : ℕ

pub record World : Type 0 where
  pub recvs : List RawRecv
  pub send_rets : List ℕ
  pub spawn_rets : List ℕ
  pub sent : List Sent
  pub spawned : List (List ℕ)
  pub spawned_elfs : List (List ℕ × List ℕ)

-- A receive that reports an error: -11 as a 64-bit word.
abbrev pub no_message : RawRecv
no_message = record { ret = 2 ^ 64 - 11; bytes = []; meta0 = 0; meta1 = 0 }

abbrev take_recv : List RawRecv → RawRecv × List RawRecv
take_recv [] = (no_message, [])
take_recv (r ∷ rs) = (r, rs)

-- Past the end of its list a receive reports an error, a send success and a spawn failure.
unfoldable pub next_recv : World → RawRecv × World
next_recv w = let (r, rs) = take_recv w.recvs in (r, record w { recvs = rs })

abbrev pub take_ret : List ℕ → ℕ × List ℕ
take_ret [] = (0, [])
take_ret (r ∷ rs) = (r, rs)

unfoldable pub do_send : ℕ → List ℕ → ℕ → World → ℕ × World
do_send handle message passed w =
    let (r, rs) = take_ret w.send_rets in
    (
      r,
      record w {
        send_rets = rs;
        sent = w.sent ++ record { handle = handle; message = message; passed = passed } ∷ [];
      },
    )

unfoldable pub do_spawn : List ℕ → World → ℕ × World
do_spawn path w =
    let (r, rs) = take_ret w.spawn_rets in
    (r, record w { spawn_rets = rs; spawned = w.spawned ++ path ∷ [] })

unfoldable pub do_spawn_elf : List ℕ → List ℕ → World → ℕ × World
do_spawn_elf path elf w =
    let (r, rs) = take_ret w.spawn_rets in
    (r, record w { spawn_rets = rs; spawned_elfs = w.spawned_elfs ++ (path, elf) ∷ [] })
