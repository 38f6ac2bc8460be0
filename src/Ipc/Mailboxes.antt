-- ===== src/Ipc/Mailboxes.antt =====
-- The manager implements one first-in-first-out mailbox for each process.
use mene_os.Base.{
  ℕ, ◌≡◌, refl, ◌∙◌, ap₂, List, [], ◌∷◌, ◌++◌, Option, none, some, arith, ◌==◌, if◌then◌else◌,
  Result, ok, err, Option-cases, List-cases, inl, inr,
}
use mene_os.Base.BTreeMap.{get, get-insert, get-remove, get-modify}
use mene_os.Ipc.Endpoint.{IpcPayload, new_payload, Endpoint}
use mene_os.Ipc.Manager.{
  Endpoints, AxError, not_found, would_wait, deliver, find_endpoint, u64, init_process, send, recv,
  cleanup_process, Received,
}

abbrev pub queue_of : Option Endpoint → Option (List IpcPayload)
queue_of none = none
queue_of (some ep) = some ep.queue

-- The messages that wait for a process, `none` if it has no endpoint.
unfoldable pub messages : ℕ → Endpoints → Option (List IpcPayload)
messages pid eps = queue_of (find_endpoint pid eps)

-- The specification: a queue for each process that has a mailbox.
abbrev pub Mailboxes : Type 0
Mailboxes = ℕ → Option (List IpcPayload)

abbrev pub put : ℕ → Option (List IpcPayload) → Mailboxes → Mailboxes
put pid q boxes j = if pid == j then q else boxes j

pub data Call : Type 0 where
  inits cleans : ℕ → Call
  sends : ℕ → ℕ → List ℕ → ℕ → Call
  recvs : ℕ → List ℕ → ℕ → ℕ → Call

pub data Reply : Type 0 where
  done : Reply
  sent : Result AxError Unit → Reply
  received : Received → Reply

abbrev spec_send : ℕ → IpcPayload → Option (List IpcPayload) → Mailboxes → Reply × Mailboxes
spec_send pid payload none boxes = (sent (err not_found), boxes)
spec_send pid payload (some q) boxes = (sent (ok tt), put pid (some (q ++ payload ∷ [])) boxes)

abbrev spec_recv : ℕ → List ℕ → ℕ → ℕ → Option (List IpcPayload) → Mailboxes → Reply × Mailboxes
spec_recv pid buf sender passed none boxes = (received (would_wait buf sender passed), boxes)
spec_recv pid buf sender passed (some []) boxes = (received (would_wait buf sender passed), boxes)
spec_recv pid buf sender passed (some (p ∷ ps)) boxes =
    (received (deliver buf p), put pid (some ps) boxes)

pub spec_step : Call → Mailboxes → Reply × Mailboxes
spec_step (inits pid) boxes = (done, put pid (some []) boxes)
spec_step (cleans pid) boxes = (done, put pid none boxes)
spec_step (sends from to bytes passed) boxes =
    spec_send to (new_payload bytes (u64 from)) (boxes to) boxes
spec_step (recvs pid buf sender passed) boxes = spec_recv pid buf sender passed (boxes pid) boxes

abbrev as_sent : Result AxError Unit × Endpoints → Reply × Endpoints
as_sent r = (sent r.0, r.1)

abbrev as_received : Received × Endpoints → Reply × Endpoints
as_received r = (received r.0, r.1)

pub step : Call → Endpoints → Reply × Endpoints
step (inits pid) eps = (done, init_process pid eps)
step (cleans pid) eps = (done, cleanup_process pid eps)
step (sends from to bytes passed) eps = as_sent (send from to bytes passed eps)
step (recvs pid buf sender passed) eps = as_received (recv pid buf sender passed eps)

pub replies {ℓ} : {S : Type ℓ} → (Call → S → Reply × S) → List Call → S → List Reply
replies f [] s = []
replies f (c ∷ cs) s = (f c s).0 ∷ replies f cs (f c s).1

abbrev pub Agrees : Endpoints → Mailboxes → Type 0
Agrees eps boxes = (j : ℕ) → messages j eps ≡ boxes j

pub messages-init_process :
    (pid j : ℕ) (eps : Endpoints)
    → messages j (init_process pid eps) ≡ (if pid == j then some [] else messages j eps)
unfolding messages init_process
messages-init_process pid j none = rw get-insert (unfold get in ground arith)
messages-init_process pid j (some m) = rw get-insert (ground arith)

pub messages-cleanup_process :
    (pid j : ℕ) (eps : Endpoints)
    → messages j (cleanup_process pid eps) ≡ (if pid == j then none else messages j eps)
unfolding messages cleanup_process
messages-cleanup_process pid j none = ground arith
messages-cleanup_process pid j (some m) = rw get-remove (ground arith)

-- The effect of `send` and of `recv`, by what stands in the mailbox.
send_effect :
    (from to : ℕ) (bytes : List ℕ) (passed : ℕ) (eps : Endpoints) (boxes : Mailboxes)
    → Agrees eps boxes
    → ((as_sent (send from to bytes passed eps)).0
        ≡ (spec_send to (new_payload bytes (u64 from)) (messages to eps) boxes).0)
      × Agrees
          (send from to bytes passed eps).1
          (spec_send to (new_payload bytes (u64 from)) (messages to eps) boxes).1
unfolding send messages
send_effect from to bytes passed none boxes a = (refl, a)
send_effect from to bytes passed (some m) boxes a = elim (Option-cases (get to m)) [
  | inl e ↦ rw e (refl, a)
  | inr (ep, e) ↦ rw e (refl, λ j. rw get-modify (ground (arith, a j, e)))
]

recv_effect :
    (pid : ℕ) (buf : List ℕ) (sender passed : ℕ) (eps : Endpoints) (boxes : Mailboxes)
    → Agrees eps boxes
    → ((as_received (recv pid buf sender passed eps)).0
        ≡ (spec_recv pid buf sender passed (messages pid eps) boxes).0)
      × Agrees
          (recv pid buf sender passed eps).1
          (spec_recv pid buf sender passed (messages pid eps) boxes).1
unfolding recv messages
recv_effect pid buf sender passed none boxes a = (refl, a)
recv_effect pid buf sender passed (some m) boxes a = elim (Option-cases (get pid m)) [
  | inl e ↦ rw e (refl, a)
  | inr (ep, e) ↦ elim (List-cases ep.queue) [
    | inl none_wait ↦ rw (e, none_wait) (refl, a)
    | inr (p, ps, some_wait) ↦ rw (e, some_wait) (refl, λ j. rw get-modify (ground (arith, a j, e)))
  ]
]

-- One call gives the reply of the specification, and keeps the states in agreement.
pub step-refines :
    (c : Call) (eps : Endpoints) (boxes : Mailboxes)
    → Agrees eps boxes
    → ((step c eps).0 ≡ (spec_step c boxes).0) × Agrees (step c eps).1 (spec_step c boxes).1
unfolding step spec_step
step-refines (inits pid) eps boxes a = (refl, λ j. messages-init_process pid j eps ∙ rw (a j))
step-refines (cleans pid) eps boxes a = (refl, λ j. messages-cleanup_process pid j eps ∙ rw (a j))
step-refines (sends from to bytes passed) eps boxes a =
    rw (← a to) (send_effect from to bytes passed eps boxes a)
step-refines (recvs pid buf sender passed) eps boxes a =
    rw (← a pid) (recv_effect pid buf sender passed eps boxes a)

pub replies-refines :
    (cs : List Call) (eps : Endpoints) (boxes : Mailboxes)
    → Agrees eps boxes
    → replies step cs eps ≡ replies spec_step cs boxes
unfolding replies
replies-refines [] eps boxes a = refl
replies-refines (c ∷ cs) eps boxes a =
    let (same, agree) = step-refines c eps boxes a in
    ap₂ ◌∷◌ same (replies-refines cs (step c eps).1 (spec_step c boxes).1 agree)

-- From the empty table, any interleaving of `init_process`, `send`, `recv` and `cleanup_process`
-- calls of any processes gets exactly the replies of one first-in-first-out queue for each
-- process that was initialised and not cleaned up.
pub manager_refines_mailboxes :
    (cs : List Call) → replies step cs none ≡ replies spec_step cs (λ pid. none)
unfolding messages
manager_refines_mailboxes cs = replies-refines cs none (λ pid. none) (λ j. refl)
