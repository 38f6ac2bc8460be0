-- ===== src/Ipc/Tests.antt =====
-- Runs of the message queues at concrete inputs.
use mene_os.Base.{ℕ, ◌≡◌, refl, List, [], ◌∷◌, some, none, arith, map}
use mene_os.Base.BTreeMap.{get}
use mene_os.Ipc.Endpoint.{new_endpoint}
use mene_os.Ipc.Manager.{Endpoints}
use mene_os.Ipc.Mailboxes.{
  Call, inits, cleans, sends, recvs, step, spec_step, replies, messages, manager_refines_mailboxes,
}
use mene_os.Ipc.Delivery.{send_all, recv_all, whole, recv_all-send_all}

abbrev ping : List ℕ
ping = b'p' ∷ b'i' ∷ b'n' ∷ b'g' ∷ []

abbrev buffer : List ℕ
buffer = 0 ∷ 0 ∷ 0 ∷ 0 ∷ 0 ∷ 0 ∷ []

abbrev calls : List Call
calls =
    inits 1
    ∷ sends 2 1 ping 0
    ∷ sends 1 2 ping 0
    ∷ recvs 1 buffer 0 0
    ∷ recvs 1 buffer 0 0
    ∷ cleans 1
    ∷ sends 2 1 ping 0
    ∷ []

manager_refines_mailboxes_example : replies step calls none ≡ replies spec_step calls (λ pid. none)
manager_refines_mailboxes_example = manager_refines_mailboxes calls

abbrev one_mailbox : Endpoints
one_mailbox = some ((1, new_endpoint) ∷ [])

recv_all-send_all_example :
    recv_all 2 1 buffer (send_all 2 1 (ping ∷ buffer ∷ []) one_mailbox)
    ≡ map (whole buffer 2) (ping ∷ buffer ∷ [])
unfolding messages get
recv_all-send_all_example =
    recv_all-send_all 2 1 buffer (ping ∷ buffer ∷ []) one_mailbox refl
      (omega arith, (omega arith, tt))
