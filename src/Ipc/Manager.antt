-- ===== src/Ipc/Manager.antt =====
-- manager.rs. Each function holds the lock of the table throughout, so a call is one step on the
-- table; an `Arc<Endpoint>` is the number of the endpoint. Nobody waits on the wait queue of
-- an endpoint, so its `notify_one` has no effect to model.
use mene_os.Base.{
  ℕ, ◌%◌, ◌^◌, List, [], Option, none, some, length, take, min, copy_front, Result, ok, err,
}
use mene_os.Base.BTreeMap.{Map, get, insert, remove, modify}
use mene_os.Ipc.Endpoint.{IpcPayload, new_payload, Endpoint, new_endpoint, push, pop}

-- axerrno's `AxError`, as far as these crates name it.
pub data AxError : Type 0 where
  not_found would_block invalid_input permission_denied no_memory no_such_process bad_address :
      AxError

-- PROCESS_ENDPOINTS
abbrev pub Endpoints : Type 0
Endpoints = Option (Map Endpoint)

-- The table that `init_process` finds or makes.
abbrev pub table : Endpoints → Map Endpoint
table none = []
table (some m) = m

unfoldable pub init_process : ℕ → Endpoints → Endpoints
init_process pid eps = some (insert pid new_endpoint (table eps))

abbrev pub find_endpoint : ℕ → Endpoints → Option Endpoint
find_endpoint pid none = none
find_endpoint pid (some m) = get pid m

-- `from_pid as u64` and, in `recv`, `sender_id as usize`, with a 64-bit `usize`.
abbrev pub u64 : ℕ → ℕ
u64 n = n % 2 ^ 64

abbrev pub push_to : ℕ → IpcPayload → Endpoints → Option Endpoint → Result AxError Unit × Endpoints
push_to pid payload eps none = (err not_found, eps)
push_to pid payload none (some ep) = (err not_found, none)
push_to pid payload (some m) (some ep) = (ok tt, some (modify pid (push payload) m))

unfoldable pub send : ℕ → ℕ → List ℕ → ℕ → Endpoints → Result AxError Unit × Endpoints
send from_pid to_handle bytes passed eps =
    let payload = new_payload bytes (u64 from_pid) in
    push_to to_handle payload eps (find_endpoint to_handle eps)

-- What a call of `recv` leaves in the variables that it was given.
pub record Received : Type 0 where
  pub result : Result AxError ℕ
  pub buf : List ℕ
  pub sender_pid : ℕ
  pub recv_cap : ℕ

abbrev pub would_wait : List ℕ → ℕ → ℕ → Received
would_wait buf sender_pid recv_cap = record {
  result = err would_block;
  buf = buf;
  sender_pid = sender_pid;
  recv_cap = recv_cap;
}

abbrev pub deliver : List ℕ → IpcPayload → Received
deliver buf payload =
    let len = min (length payload.message) (length buf) in
    record {
      result = ok len;
      buf = copy_front (take len payload.message) buf;
      sender_pid = payload.sender_id;
      recv_cap = 0;
    }

abbrev pub take_from :
    ℕ → List ℕ → ℕ → ℕ → Map Endpoint → Option IpcPayload × Endpoint → Received × Endpoints
take_from pid buf sender_pid recv_cap m (none, ep) = (would_wait buf sender_pid recv_cap, some m)
take_from pid buf sender_pid recv_cap m (some payload, ep) =
    (deliver buf payload, some (modify pid (λ _. ep) m))

abbrev pub recv_from : ℕ → List ℕ → ℕ → ℕ → Endpoints → Option Endpoint → Received × Endpoints
recv_from pid buf sender_pid recv_cap eps none = (would_wait buf sender_pid recv_cap, eps)
recv_from pid buf sender_pid recv_cap none (some ep) = (would_wait buf sender_pid recv_cap, none)
recv_from pid buf sender_pid recv_cap (some m) (some ep) =
    take_from pid buf sender_pid recv_cap m (pop ep)

unfoldable pub recv : ℕ → List ℕ → ℕ → ℕ → Endpoints → Received × Endpoints
recv pid buf sender_pid recv_cap eps =
    recv_from pid buf sender_pid recv_cap eps (find_endpoint pid eps)

-- The timeout is not used.
unfoldable pub recv_timeout : ℕ → List ℕ → ℕ → ℕ → ℕ → Endpoints → Received × Endpoints
recv_timeout pid buf sender_pid recv_cap timeout_ms eps = recv pid buf sender_pid recv_cap eps

unfoldable pub cleanup_process : ℕ → Endpoints → Endpoints
cleanup_process pid none = none
cleanup_process pid (some m) = some (remove pid m)
