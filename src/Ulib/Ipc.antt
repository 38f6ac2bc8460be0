-- ===== src/Ulib/Ipc.antt =====
-- apps/ulib/src/lib.rs: `sys_spawn`, `sys_ipc_send`, `sys_ipc_send_checked` and
-- `sys_ipc_recv_timeout`.
use mene_os.Base.{
  ℕ, ◌^◌, ◌≤◌, ◌<◌, ◌≡◌, Bool, ◌&&◌, ◌||◌, not, List, Option, none, some, arith, length, ltb, leb,
  ◌==◌, if◌then◌else◌,
}
use mene_os.Abi.Handle.{Handle, to_usize, from_usize}
use mene_os.Ulib.World.{RawRecv, World, next_recv, do_send, do_spawn, do_spawn_elf}

abbrev pub passed_number : Option Handle → ℕ
passed_number none = 0
passed_number (some h) = to_usize h

unfoldable pub sys_spawn : List ℕ → World → ℕ × World
sys_spawn path w = do_spawn path w

unfoldable pub sys_spawn_elf : List ℕ → List ℕ → World → ℕ × World
sys_spawn_elf path elf w = do_spawn_elf path elf w

unfoldable pub sys_ipc_send : Handle → List ℕ → Option Handle → World → World
sys_ipc_send handle msg passed_cap w =
    (do_send (to_usize handle) msg (passed_number passed_cap) w).1

-- `(ret as isize) >= 0`
abbrev pub is_nonneg : ℕ → Bool
is_nonneg ret = ltb ret (2 ^ 63)

unfoldable pub sys_ipc_send_checked : Handle → List ℕ → Option Handle → World → Bool × World
sys_ipc_send_checked handle msg passed_cap w =
    let (ret, w') = do_send (to_usize handle) msg (passed_number passed_cap) w in
    (is_nonneg ret, w')

-- What a call of `sys_ipc_recv_timeout` leaves: its result, `none` for -1, the buffer, the sender
-- and the capability.
pub record Recv : Type 0 where
  pub result : Option ℕ
  pub buf : List ℕ
  pub from_pid : ℕ
  pub recv_cap : Option Handle

abbrev pub cap_of : ℕ → Option Handle
cap_of number = if number == 0 then none else some (from_usize number)

unfoldable pub decode_recv : RawRecv → Recv
decode_recv r =
    if is_nonneg r.ret && leb r.ret (length r.bytes) && (r.ret == 0 || not (r.meta0 == 0))
    then record {
      result = some r.ret;
      buf = r.bytes;
      from_pid = r.meta0;
      recv_cap = cap_of r.meta1;
    }
    else record { result = none; buf = r.bytes; from_pid = 0; recv_cap = none }

unfoldable pub sys_ipc_recv_timeout : World → Recv × World
sys_ipc_recv_timeout w = let (r, w') = next_recv w in (decode_recv r, w')

-- What a call of `sys_ipc_recv` leaves: the word that the kernel returned, errors included, the
-- buffer, the sender and the capability.
pub record Received : Type 0 where
  pub len : ℕ
  pub buf : List ℕ
  pub from_pid : ℕ
  pub recv_cap : Option Handle

unfoldable pub sys_ipc_recv : World → Received × World
sys_ipc_recv w =
    let (r, w') = next_recv w in
    (record { len = r.ret; buf = r.bytes; from_pid = r.meta0; recv_cap = cap_of r.meta1 }, w')

-- Whatever the kernel writes, a result of `sys_ipc_recv_timeout` that is no error is the word that
-- the kernel returned, below 2 ^ 63 and at most the length of the buffer.
pub decode_recv_safe :
    (r : RawRecv) (n : ℕ)
    → (decode_recv r).result ≡ some n
    → (n ≤ length (decode_recv r).buf) × (n < 2 ^ 63) × (n ≡ r.ret)
unfolding decode_recv
decode_recv_safe r n h = ground arith
