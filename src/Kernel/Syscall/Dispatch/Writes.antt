-- ===== src/Kernel/Syscall/Dispatch/Writes.antt =====
-- Writes of bounded length, and the length of what a receive leaves.
use mene_os.Base.{
  ℕ, ◌+◌, ◌≡◌, ◌≤◌, ◌<◌, ◌⊎◌, inl, inr, refl, min, List, Option, none, some, arith, length, take,
  length-take, length-copy_front, length-to_le, to_le,
}
use mene_os.Ipc.Endpoint.{Endpoint, IpcPayload, pop}
use mene_os.Ipc.Manager.{
  Endpoints, recv, recv_from, recv_timeout, take_from, deliver, find_endpoint,
}
use mene_os.Base.BTreeMap.{Map}
use mene_os.Kernel.Syscall
use mene_os.Kernel.Syscall.{Kernel, UserMemory}
use mene_os.Kernel.Syscall.Dispatch.{Memory, store, store_behind, store_word_behind}
use mene_os.Kernel.Syscall.Dispatch.Memory.{store-outside}

-- At most `n` bytes.
abbrev pub Fits : ℕ → Option (List ℕ) → Type 0
Fits n none = Unit {0}
Fits n (some bytes) = length bytes ≤ n

pub store-Fits :
    (a p n : ℕ) (bytes : List ℕ) (mem : Memory)
    → length bytes ≤ n
    → (a < p) ⊎ (p + n ≤ a)
    → store p bytes mem a ≡ mem a
store-Fits a p n bytes mem fits out = store-outside p bytes mem a (nearer out)
  where
    nearer : (a < p) ⊎ (p + n ≤ a) → (a < p) ⊎ (p + length bytes ≤ a)
    nearer (inl lt) = inl lt
    nearer (inr le) = inr (omega (arith, le, fits))

pub store_behind-Fits :
    (a p n : ℕ) (bytes : Option (List ℕ)) (mem : Memory)
    → Fits n bytes
    → (a < p) ⊎ (p + n ≤ a)
    → store_behind p bytes mem a ≡ mem a
store_behind-Fits a p n none mem fits out = refl
store_behind-Fits a p n (some bytes) mem fits out = store-Fits a p n bytes mem fits out

pub store_word-outside :
    (a p value : ℕ) (mem : Memory) → (a < p) ⊎ (p + 8 ≤ a) → store p (to_le 8 value) mem a ≡ mem a
store_word-outside a p value mem out =
    store-Fits a p 8 (to_le 8 value) mem (omega (arith, length-to_le 8 value)) out

pub store_word_behind-outside :
    (a p : ℕ) (value : Option ℕ) (mem : Memory)
    → (a < p) ⊎ (p + 8 ≤ a)
    → store_word_behind p value mem a ≡ mem a
store_word_behind-outside a p none mem out = refl
store_word_behind-outside a p (some value) mem out = store_word-outside a p value mem out

-- A receive keeps the length of the buffer.
deliver-length : (buf : List ℕ) (p : IpcPayload) → length (deliver buf p).buf ≡ length buf
deliver-length buf p =
    let n = min (length p.message) (length buf) in
    length-copy_front (take n p.message) buf (omega (arith, length-take n p.message))

pub recv-length :
    (pid : ℕ) (buf : List ℕ) (eps : Endpoints) → length (recv pid buf 0 0 eps).0.buf ≡ length buf
unfolding recv
recv-length pid buf eps = at_endpoint eps (find_endpoint pid eps)
  where
    taken :
        (m : Map Endpoint) (x : Option IpcPayload × Endpoint)
        → length (take_from pid buf 0 0 m x).0.buf ≡ length buf
    taken m (none, ep) = refl
    taken m (some payload, ep) = deliver-length buf payload

    at_endpoint :
        (e : Endpoints) (x : Option Endpoint)
        → length (recv_from pid buf 0 0 e x).0.buf ≡ length buf
    at_endpoint e none = refl
    at_endpoint none (some ep) = refl
    at_endpoint (some m) (some ep) = taken m (pop ep)

pub timeout-Fits :
    (pid timeout n : ℕ) (user : UserMemory) (k : Kernel)
    → Fits n user.buf
    → Fits n (Syscall.ipc_recv_timeout pid timeout user k).1.buf
unfolding Syscall.ipc_recv_timeout recv_timeout
timeout-Fits pid timeout n user k fits = by_pointers user.buf user.sender_pid fits
  where
    by_pointers :
        (buf : Option (List ℕ)) (sender : Option ℕ)
        → Fits n buf
        → Fits n
            (Syscall.ipc_recv_timeout pid timeout
              (record user { buf = buf; sender_pid = sender })
              k).1.buf
    by_pointers none sender h = tt
    by_pointers (some buf) none h = h
    by_pointers (some buf) (some old) h = omega (arith, h, recv-length pid buf k.endpoints)
