-- ===== src/Kernel/Syscall/Capabilities.antt =====
-- A capability from its sender to the control plane of init: `ipc_send` and `ipc_recv_timeout` of
-- the kernel, `sys_ipc_recv_timeout` of ulib and `handle_control_plane_msg` of init.
use mene_os.Base.{
  ℕ, ◌≡◌, refl, List, [], Option, none, some, arith, Result, ok, err, Option-cases, inl, inr, take,
  List-cases,
}
use mene_os.Base.BTreeMap.{get}
use mene_os.Ipc.Manager.{AxError, Endpoints, recv, recv_timeout}
use mene_os.Ulib.World.{RawRecv}
use mene_os.Ulib.Ipc.{Recv, decode_recv}
use mene_os.Init.ControlPlane.{
  Plane, handle_control_plane_msg, dispatch, handle_register, handle_lookup, handle_query,
  parse_control_req,
}
use mene_os.Kernel.Syscall.{Kernel, UserMemory, ipc_recv_timeout, retval, words_on}

-- What `sys_ipc_recv_timeout` calls the kernel with: a buffer and two words that are zero.
abbrev pub fresh : List ℕ → UserMemory
fresh buf = record { buf = some buf; sender_pid = some 0; recv_cap = some 0 }

abbrev pub word : Option ℕ → ℕ
word none = 0
word (some n) = n

abbrev pub bytes : Option (List ℕ) → List ℕ
bytes none = []
bytes (some b) = b

abbrev pub raw : (AxError → ℕ) → Result AxError ℕ × UserMemory × Kernel → RawRecv
raw code (r, user, k) = record {
  ret = retval code r;
  bytes = bytes user.buf;
  meta0 = word user.sender_pid;
  meta1 = word user.recv_cap;
}

-- One receive of a process, from the state of the kernel to what `sys_ipc_recv_timeout` returns.
pub kernel_recv : (AxError → ℕ) → ℕ → List ℕ → ℕ → Kernel → Recv
kernel_recv code pid buf timeout_ms k =
    decode_recv (raw code (ipc_recv_timeout pid timeout_ms (fresh buf) k))

pub recv-cap_zero :
    (pid : ℕ) (buf : List ℕ) (eps : Endpoints) → (recv pid buf 0 0 eps).0.recv_cap ≡ 0
unfolding recv
recv-cap_zero pid buf none = refl
recv-cap_zero pid buf (some m) = elim (Option-cases (get pid m)) [
  | inl e ↦ rw e refl
  | inr (ep, e) ↦ elim (List-cases ep.queue) [
    | inl empty ↦ rw (e, empty) refl
    | inr (p, ps, full) ↦ rw (e, full) refl
  ]
]

decode_recv-no_cap : (r : RawRecv) → r.meta1 ≡ 0 → (decode_recv r).recv_cap ≡ none
unfolding decode_recv
decode_recv-no_cap r h = ground (arith, h)

pub words_on-zero :
    (r : Result AxError ℕ) (value : ℕ) → value ≡ 0 → word (words_on r value (some 0)) ≡ 0
words_on-zero (ok n) value h = h
words_on-zero (err e) value h = refl

kernel_recv-no_cap :
    (code : AxError → ℕ) (pid : ℕ) (buf : List ℕ) (timeout_ms : ℕ) (k : Kernel)
    → (kernel_recv code pid buf timeout_ms k).recv_cap ≡ none
unfolding kernel_recv ipc_recv_timeout recv_timeout
kernel_recv-no_cap code pid buf timeout_ms k =
    decode_recv-no_cap _
      (words_on-zero (recv pid buf 0 0 k.endpoints).0.result _ (recv-cap_zero pid buf k.endpoints))

dispatch-no_cap :
    (from_pid : ℕ) (req : Option (ℕ × List ℕ)) (s : Plane) → (dispatch from_pid req none s).1 ≡ s
unfolding handle_register handle_lookup handle_query
dispatch-no_cap from_pid none s = refl
dispatch-no_cap from_pid (some (opcode, name)) s = ground arith

-- Whatever messages wait in the kernel, with whatever capabilities they were sent, and whatever
-- numbers its errors have: the message that a process receives comes with no capability, so
-- handling it as a control message registers nothing and sends nothing.
pub control_plane_inert :
    (code : AxError → ℕ) (pid : ℕ) (buf : List ℕ) (timeout_ms : ℕ) (k : Kernel) (n : ℕ) (s : Plane)
    → let r = kernel_recv code pid buf timeout_ms k in
      (r.recv_cap ≡ none)
      × ((handle_control_plane_msg r.from_pid (take n r.buf) r.recv_cap s).1 ≡ s)
unfolding handle_control_plane_msg
control_plane_inert code pid buf timeout_ms k n s =
    let no_cap = kernel_recv-no_cap code pid buf timeout_ms k in
    let r = kernel_recv code pid buf timeout_ms k in
    (no_cap, rw no_cap (dispatch-no_cap r.from_pid (parse_control_req (take n r.buf)) s))
