-- ===== src/Kernel/Syscall/Dispatch/Messages.antt =====
-- A message from the registers and the memory of one process to those of another.
use mene_os.Base.{
  ℕ, zero, suc, ◌+◌, ◌≡◌, ◌≤◌, ◌⊎◌, inl, inr, refl, sym, ◌∙◌, ap, subst, List, [], ◌∷◌, ◌++◌, drop,
  none, some, ok, arith, length, ◌==◌, Option-cases, to_le, from_le, map_ok, false,
}
use mene_os.Base.BTreeMap.{get}
use mene_os.Abi.Handle.{Handle}
use mene_os.Abi.Handle
use mene_os.Abi.Sysno
use mene_os.Ipc.Manager.{Endpoints, Received, send, recv, u64}
use mene_os.Ipc.Mailboxes.{messages}
use mene_os.Ipc.Delivery.{whole, recv_all, send_all, recv_all-send_all}
use mene_os.Kernel.Memory.{Machine}
use mene_os.Kernel.Syscall.{UserMemory, ipc_send, ipc_recv, received, with_endpoints, retval}
use mene_os.Kernel.Syscall.System.{System, Loader}
use mene_os.Kernel.Syscall.Dispatch.{
  Memory, load, store, word, store_word, Env, Caller, returns, serve_mene, answer_recv, behind,
  handle_syscall,
}
use mene_os.Kernel.Syscall.Dispatch.Memory.{load-store, load-store_outside, word-store_word}
use mene_os.Ulib.Calls

send-ok :
    (from to : ℕ) (m : List ℕ) (passed : ℕ) (eps : Endpoints)
    → messages to eps ≡ some []
    → (send from to m passed eps).0 ≡ ok tt
unfolding send messages
send-ok from to m passed none h = cc
send-ok from to m passed (some t) h = elim (Option-cases (get to t)) [
  | inl e ↦ ground (arith, e, h)
  | inr (ep, e) ↦ rw e refl
]

pub length-load : (mem : Memory) (ptr len : ℕ) → length (load mem ptr len) ≡ len
unfolding load
length-load mem ptr zero = refl
length-load mem ptr (suc len) = ap suc (length-load mem (ptr + 1) len)

recv-send :
    (from to : ℕ) (m buf : List ℕ) (eps : Endpoints)
    → messages to eps ≡ some []
    → length m ≤ length buf
    → (recv to buf 0 0 (send from to m 0 eps).1).0 ≡ whole buf from m
unfolding recv_all send_all
recv-send from to m buf eps empty fits =
    ap head_or (recv_all-send_all from to buf (m ∷ []) eps empty (fits, tt))
  where
    head_or : List Received → Received
    head_or [] = whole buf from m
    head_or (r ∷ rs) = r

-- Two ranges that have no byte in common.
abbrev pub Apart : ℕ → ℕ → ℕ → ℕ → Type 0
Apart p n q k = (p + n ≤ q) ⊎ (q + k ≤ p)

-- What the receiver finds after the message `msg`, with `rest` behind it in its buffer, and the two
-- words were written.
received_words :
    (buf pid_ptr cap_ptr from : ℕ) (msg rest : List ℕ) (mem : Memory)
    → Apart buf (length msg) pid_ptr 8
    → Apart buf (length msg) cap_ptr 8
    → Apart pid_ptr 8 cap_ptr 8
    → let mem' =
        store_word cap_ptr 0 (store_word pid_ptr (u64 from) (store buf (msg ++ rest) mem)) in
      (load mem' buf (length msg) ≡ msg) × (word mem' pid_ptr ≡ u64 from) × (word mem' cap_ptr ≡ 0)
unfolding to_le
received_words buf pid_ptr cap_ptr from msg rest mem a b c =
    let mem1 : Memory = store buf (msg ++ rest) mem in
    let mem2 : Memory = store_word pid_ptr (u64 from) mem1 in
    (
      load-store_outside cap_ptr (to_le 8 0) mem2 buf (length msg) b
          ∙ load-store_outside pid_ptr (to_le 8 (u64 from)) mem1 buf (length msg) a
          ∙ load-store buf msg rest mem,
      ap from_le (load-store_outside cap_ptr (to_le 8 0) mem2 pid_ptr 8 c)
          ∙ word-store_word pid_ptr (u64 from) mem1 (omega arith),
      word-store_word cap_ptr 0 mem2 (omega arith),
    )

-- The system after the two calls.
abbrev after_send : (m : Machine) → ℕ → ℕ → List ℕ → System m → System m
after_send m pid to msg s = record s {
  kernel = record s.kernel { endpoints = (send pid to msg 0 s.kernel.endpoints).1 };
}

abbrev after_recv : (m : Machine) → ℕ → List ℕ → System m → System m
after_recv m pid buf s = record s {
  kernel = record s.kernel { endpoints = (recv pid buf 0 0 s.kernel.endpoints).1 };
}

module _ (m : Machine) (l : Loader) (env : Env) where
  -- The two calls, up to the arms that serve them.
  call-ipc_send :
      (c : Caller m) (handle : Handle) (ptr len : ℕ) (mem : Memory) (s : System m)
      → (send c.pid (Handle.to_usize handle) (load mem ptr len) 0 s.kernel.endpoints).0 ≡ ok tt
      → handle_syscall m l env c (Calls.sys_ipc_send handle ptr len none) mem s
        ≡ returns 0 mem (after_send m c.pid (Handle.to_usize handle) (load mem ptr len) s)
  unfolding handle_syscall Calls.sys_ipc_send Sysno.to_usize Sysno.try_from serve_mene ipc_send
  call-ipc_send c handle ptr len mem s sent =
      ap
        (λ x.
          returns (retval env.code (map_ok (λ _. 0) x)) mem
            (after_send m c.pid (Handle.to_usize handle) (load mem ptr len) s))
        sent

  call-ipc_recv :
      (c : Caller m) (buf room pid_ptr cap_ptr : ℕ) (mem : Memory) (s : System m) (r : Received)
      (n : ℕ)
      → 1 ≤ pid_ptr
      → 1 ≤ cap_ptr
      → (recv c.pid (load mem buf room) 0 0 s.kernel.endpoints).0 ≡ r
      → r.result ≡ ok n
      → handle_syscall m l env c (Calls.sys_ipc_recv buf room pid_ptr cap_ptr) mem s
        ≡ returns n
            (store_word cap_ptr r.recv_cap (store_word pid_ptr r.sender_pid (store buf r.buf mem)))
            (after_recv m c.pid (load mem buf room) s)
  unfolding handle_syscall Calls.sys_ipc_recv Sysno.to_usize Sysno.try_from serve_mene ipc_recv
  call-ipc_recv c buf room pid_ptr cap_ptr mem s r n some_pid some_cap got done =
      let real_pid : (pid_ptr == 0) ≡ false = ground (arith, some_pid) in
      let real_cap : (cap_ptr == 0) ≡ false = ground (arith, some_cap) in
      let user : UserMemory = record {
        buf = none;
        sender_pid = behind pid_ptr (word mem pid_ptr);
        recv_cap = behind cap_ptr (word mem cap_ptr);
      } in
      ap
        (λ x. answer_recv m l env buf pid_ptr cap_ptr mem s (
          received user (
            with_endpoints s.kernel
              (x, (recv c.pid (load mem buf room) 0 0 s.kernel.endpoints).1))))
        got
      ∙ rw (done, real_pid, real_cap) refl

  -- The endpoint of the process `to` is there and empty, its number is that of the handle, its buffer
  -- has room for the message, and the buffer and the two words that it passes lie apart. Then the
  -- call of `sys_ipc_send` of the library by `from` returns 0, and the call of `sys_ipc_recv` by `to`
  -- after it returns the length; in the memory of `to` stand then the bytes of the message, the number
  -- of `from` as the sender and 0 as the capability.
  pub ipc_recv-ipc_send :
      (from to : Caller m) (handle : Handle) (ptr len buf room pid_ptr cap_ptr : ℕ)
      (mem mem' : Memory) (s : System m)
      → Handle.to_usize handle ≡ to.pid
      → messages to.pid s.kernel.endpoints ≡ some []
      → len ≤ room
      → 1 ≤ pid_ptr
      → 1 ≤ cap_ptr
      → Apart buf len pid_ptr 8
      → Apart buf len cap_ptr 8
      → Apart pid_ptr 8 cap_ptr 8
      → (t u : System m) × (after : Memory) × (handle_syscall m l env from
            (Calls.sys_ipc_send handle ptr len none)
            mem
            s
          ≡ returns 0 mem t)
        × (handle_syscall m l env to (Calls.sys_ipc_recv buf room pid_ptr cap_ptr) mem' t
            ≡ returns len after u)
        × (load after buf len ≡ load mem ptr len)
        × (word after pid_ptr ≡ u64 from.pid)
        × (word after cap_ptr ≡ 0)
  ipc_recv-ipc_send from to handle ptr len buf room pid_ptr cap_ptr mem mem' s same empty fits
        some_pid some_cap a b c =
      let msg = load mem ptr len in
      let size : length msg ≡ len = length-load mem ptr len in
      let fits_buf : length msg ≤ length (load mem' buf room) =
        omega (arith, size, length-load mem' buf room, fits) in
      let empty_there : messages (Handle.to_usize handle) s.kernel.endpoints ≡ some [] =
        rw same empty in
      let t = after_send m from.pid (Handle.to_usize handle) msg s in
      let rest = drop (length msg) (load mem' buf room) in
      let after : Memory =
        store_word cap_ptr 0 (store_word pid_ptr (u64 from.pid) (store buf (msg ++ rest) mem')) in
      let a' : Apart buf (length msg) pid_ptr 8 = subst (λ n. Apart buf n pid_ptr 8) (sym size) a in
      let b' : Apart buf (length msg) cap_ptr 8 = subst (λ n. Apart buf n cap_ptr 8) (sym size) b in
      let (bytes_there, pid_there, cap_there) =
        received_words buf pid_ptr cap_ptr from.pid msg rest mem' a' b' c in
      let got : (recv to.pid (load mem' buf room) 0 0 t.kernel.endpoints).0
          ≡ whole (load mem' buf room) from.pid msg =
        subst
          (λ h.
            (recv to.pid (load mem' buf room) 0 0 (send from.pid h msg 0 s.kernel.endpoints).1).0
            ≡ whole (load mem' buf room) from.pid msg)
          (sym same)
          (recv-send from.pid to.pid msg (load mem' buf room) s.kernel.endpoints empty fits_buf) in
      (
        t,
        after_recv m to.pid (load mem' buf room) t,
        after,
        call-ipc_send from handle ptr len mem s
            (send-ok from.pid (Handle.to_usize handle) msg 0 s.kernel.endpoints empty_there),
        call-ipc_recv to buf room pid_ptr cap_ptr mem' t (whole (load mem' buf room) from.pid msg)
            len some_pid some_cap got (ap ok size),
        subst (λ n. load after buf n ≡ msg) size bytes_there,
        pid_there,
        cap_there,
      )
