-- ===== src/Ipc/Delivery.antt =====
-- What a receiver gets of the messages that were sent to it.
use mene_os.Base.{
  ℕ, zero, suc, ◌≤◌, ◌≡◌, refl, ◌∙◌, ap, ap₂, List, [], ◌∷◌, ◌++◌, map, none, some, arith, ok,
  Option-cases, inl, inr, length, take, take_all, drop, min, copy_front, length-take,
  length-copy_front, take-copy_front, drop-copy_front, subst,
}
use mene_os.Base.BTreeMap.{get, get-modify}
use mene_os.Ipc.Endpoint.{IpcPayload, new_payload}
use mene_os.Ipc.Manager.{Endpoints, deliver, u64, send, recv, Received}
use mene_os.Ipc.Mailboxes.{messages}
use mathlib.Core.List.{append_assoc, append-nil}

-- One process sends the messages in turn, and another receives `n` times into `buf`.
unfoldable pub send_all : ℕ → ℕ → List (List ℕ) → Endpoints → Endpoints
send_all from to [] eps = eps
send_all from to (m ∷ ms) eps = send_all from to ms (send from to m 0 eps).1

unfoldable pub recv_all : ℕ → ℕ → List ℕ → Endpoints → List Received
recv_all zero pid buf eps = []
recv_all (suc n) pid buf eps =
    (recv pid buf 0 0 eps).0 ∷ recv_all n pid buf (recv pid buf 0 0 eps).1

no_capability :
    (pid : ℕ) (buf : List ℕ) (s c : ℕ) (eps : Endpoints) (n : ℕ)
    → (recv pid buf s c eps).0.result ≡ ok n
    → (recv pid buf s c eps).0.recv_cap ≡ 0
unfolding recv
no_capability pid buf s c none n h = cc
no_capability pid buf s c (some t) n h = ground arith

-- The whole message at the front of the buffer.
abbrev pub whole : List ℕ → ℕ → List ℕ → Received
whole buf from m = record {
  result = ok (length m);
  buf = m ++ drop (length m) buf;
  sender_pid = u64 from;
  recv_cap = 0;
}

abbrev pub AllFit : ℕ → List (List ℕ) → Type 0
AllFit n [] = Unit
AllFit n (m ∷ ms) = (length m ≤ n) × AllFit n ms

payloads : ℕ → List (List ℕ) → List IpcPayload
payloads from ms = map (λ m. new_payload m (u64 from)) ms

send-messages :
    (from to : ℕ) (m : List ℕ) (passed : ℕ) (eps : Endpoints) (q : List IpcPayload)
    → messages to eps ≡ some q
    → messages to (send from to m passed eps).1 ≡ some (q ++ new_payload m (u64 from) ∷ [])
unfolding send messages
send-messages from to m passed none q h = cc
send-messages from to m passed (some t) q h = elim (Option-cases (get to t)) [
  | inl e ↦ ground (arith, e, h)
  | inr (ep, e) ↦ rw (e, get-modify) (ground (arith, e, h))
]

send_all-messages :
    (from to : ℕ) (ms : List (List ℕ)) (eps : Endpoints) (q : List IpcPayload)
    → messages to eps ≡ some q
    → messages to (send_all from to ms eps) ≡ some (q ++ payloads from ms)
unfolding send_all payloads
send_all-messages from to [] eps q h = rw append-nil h
send_all-messages from to (m ∷ ms) eps q h =
    send_all-messages from to ms (send from to m 0 eps).1 _ (send-messages from to m 0 eps q h)
    ∙ ap some (append_assoc q (new_payload m (u64 from) ∷ []) (payloads from ms))

recv-messages :
    (pid : ℕ) (buf : List ℕ) (eps : Endpoints) (p : IpcPayload) (ps : List IpcPayload)
    → messages pid eps ≡ some (p ∷ ps)
    → ((recv pid buf 0 0 eps).0 ≡ deliver buf p) × (messages pid (recv pid buf 0 0 eps).1 ≡ some ps)
unfolding recv messages
recv-messages pid buf none p ps h = cc
recv-messages pid buf (some t) p ps h = elim (Option-cases (get pid t)) [
  | inl e ↦ ground (arith, e, h)
  | inr (ep, e) ↦
      let waiting : ep.queue ≡ p ∷ ps = ground (arith, e, h) in
      rw (e, waiting) (refl, rw get-modify (ground (arith, e)))
]

deliver_whole :
    (buf m : List ℕ) (from : ℕ)
    → length m ≤ length buf
    → deliver buf (new_payload m (u64 from)) ≡ whole buf from m
unfolding copy_front
deliver_whole buf m from h =
    let fits : min (length m) (length buf) ≡ length m = omega arith in
    rw (fits, take_all (length m) m (omega arith))

recv_all-payloads :
    (from pid : ℕ) (buf : List ℕ) (ms : List (List ℕ)) (eps : Endpoints)
    → AllFit (length buf) ms
    → messages pid eps ≡ some (payloads from ms)
    → recv_all (length ms) pid buf eps ≡ map (whole buf from) ms
unfolding recv_all payloads
recv_all-payloads from pid buf [] eps fit h = refl
recv_all-payloads from pid buf (m ∷ ms) eps fit h =
    let (got, left) = recv-messages pid buf eps _ (payloads from ms) h in
    ap₂ ◌∷◌ (got ∙ deliver_whole buf m from fit.0) (recv_all-payloads from pid buf ms _ fit.1 left)

-- If the endpoint of `pid` is there and empty, the messages that a process sends to it, none
-- longer than the receiver's buffer, are received whole, in the order of sending and with the
-- sender's number.
pub recv_all-send_all :
    (from pid : ℕ) (buf : List ℕ) (ms : List (List ℕ)) (eps : Endpoints)
    → messages pid eps ≡ some []
    → AllFit (length buf) ms
    → recv_all (length ms) pid buf (send_all from pid ms eps) ≡ map (whole buf from) ms
recv_all-send_all from pid buf ms eps empty fit =
    recv_all-payloads from pid buf ms _ fit (send_all-messages from pid ms eps [] empty)

-- A successful `recv` copies the longest front of the oldest message that fits, leaves the rest
-- of the buffer and its length alone, and removes that message, also where it was cut.
pub recv-ok :
    (pid : ℕ) (buf : List ℕ) (eps : Endpoints) (p : IpcPayload) (ps : List IpcPayload)
    → messages pid eps ≡ some (p ∷ ps)
    → let n = min (length p.message) (length buf) in
      let r = recv pid buf 0 0 eps in
      (r.0.result ≡ ok n)
      × (take n r.0.buf ≡ take n p.message)
      × (drop n r.0.buf ≡ drop n buf)
      × (length r.0.buf ≡ length buf)
      × (messages pid r.1 ≡ some ps)
recv-ok pid buf eps p ps h =
    let (got, left) = recv-messages pid buf eps p ps h in
    let n = min (length p.message) (length buf) in
    let len : length (take n p.message) ≡ n = omega (arith, length-take n p.message) in
    rw got (
      refl,
      subst (λ k. take k (copy_front (take n p.message) buf) ≡ take n p.message) len
          (take-copy_front (take n p.message) buf),
      subst (λ k. drop k (copy_front (take n p.message) buf) ≡ drop k buf) len
          (drop-copy_front (take n p.message) buf),
      length-copy_front (take n p.message) buf (omega (arith, len)),
      left,
    )

-- Whatever capability is passed to `send`, the same is stored, and a successful `recv`
-- afterwards, by any process, reports capability 0, which stands for none.
pub capability_lost :
    (from to : ℕ) (m : List ℕ) (passed : ℕ) (eps : Endpoints) (pid : ℕ) (buf : List ℕ) (s c n : ℕ)
    → (recv pid buf s c (send from to m passed eps).1).0.result ≡ ok n
    → ((recv pid buf s c (send from to m passed eps).1).0.recv_cap ≡ 0)
      × (send from to m passed eps ≡ send from to m 0 eps)
capability_lost from to m passed eps pid buf s c n h =
    (no_capability pid buf s c (send from to m passed eps).1 n h, unfold send in refl)
