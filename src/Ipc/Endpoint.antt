-- ===== src/Ipc/Endpoint.antt =====
-- endpoint.rs and capability.rs.
use mene_os.Base.{ℕ, Bool, not, List, [], ◌∷◌, ◌++◌, Option, none, some, true, false}

pub data Capability : Type 0 where
  endpoint : ℕ → Capability

pub record IpcPayload : Type 0 where
  pub message : List ℕ
  pub capabilities : List Capability
  pub sender_id : ℕ

-- IpcPayload::new
abbrev pub new_payload : List ℕ → ℕ → IpcPayload
new_payload message sender_id = record {
  message = message;
  capabilities = [];
  sender_id = sender_id;
}

pub record Endpoint : Type 0 where
  pub queue : List IpcPayload

-- Endpoint::new
abbrev pub new_endpoint : Endpoint
new_endpoint = record { queue = [] }

abbrev pub push : IpcPayload → Endpoint → Endpoint
push payload ep = record { queue = ep.queue ++ payload ∷ [] }

abbrev pop_front : List IpcPayload → Option IpcPayload × Endpoint
pop_front [] = (none, record { queue = [] })
pop_front (p ∷ ps) = (some p, record { queue = ps })

abbrev pub pop : Endpoint → Option IpcPayload × Endpoint
pop ep = pop_front ep.queue

abbrev is_empty : List IpcPayload → Bool
is_empty [] = true
is_empty (p ∷ ps) = false

abbrev pub has_pending : Endpoint → Bool
has_pending ep = not (is_empty ep.queue)
