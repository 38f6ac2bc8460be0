-- ===== src/Serial/Start.antt =====
-- apps/serial/src/main.rs, `_start`: the loop that prints the messages.
pub mod Lines
use mene_os.Base.{
  ℕ, zero, suc, ◌+◌, List, [], ◌∷◌, ◌++◌, Option, none, some, take, ◌==◌, if◌then◌else◌,
}
use mene_os.Ulib.World.{World}
use mene_os.Ulib.Ipc.{Recv, sys_ipc_recv_timeout}
use mene_os.Ulib.Control.{ctl_register_service}
use mene_os.Serial.{print_record}

-- What the service sees of the kernel, the results of `sys_uptime_ms` to come, and what went to the
-- UART, `none` after a panic.
pub record Uart : Type 0 where
  pub world : World
  pub uptimes : List ℕ
  pub written : Option (List ℕ)

-- Past the end of its list an uptime is 0.
abbrev pub next_uptime : List ℕ → ℕ × List ℕ
next_uptime [] = (0, [])
next_uptime (t ∷ ts) = (t, ts)

abbrev pub write : Option (List ℕ) → Option (List ℕ) → Option (List ℕ)
write none more = none
write (some out) none = none
write (some out) (some more) = some (out ++ more)

abbrev pub print : List ℕ → Uart → Uart
print msg s =
    let (now_ms, ts) = next_uptime s.uptimes in
    record s { uptimes = ts; written = write s.written (print_record now_ms msg) }

-- `len <= 0` or a record.
abbrev pub on_message : Recv → Uart → Uart
on_message r s = elim r.result [
  | none ↦ s
  | some len ↦ if len == 0 then s else print (take len r.buf) s
]

-- A round of the loop, and several.
unfoldable pub round : Uart → Uart
round s = let (r, w) = sys_ipc_recv_timeout s.world in on_message r (record s { world = w })

unfoldable pub rounds : ℕ → Uart → Uart
rounds zero s = s
rounds (suc n) s = rounds n (round s)

-- "PL011 UART driver initialized." and "serial"
abbrev greeting : List ℕ
greeting =
    b'P' ∷ b'L' ∷ b'0' ∷ b'1' ∷ b'1' ∷ b' ' ∷ b'U' ∷ b'A' ∷ b'R' ∷ b'T' ∷ b' ' ∷ b'd' ∷ b'r' ∷ b'i'
    ∷ b'v' ∷ b'e' ∷ b'r' ∷ b' ' ∷ b'i' ∷ b'n' ∷ b'i' ∷ b't' ∷ b'i' ∷ b'a' ∷ b'l' ∷ b'i' ∷ b'z'
    ∷ b'e' ∷ b'd' ∷ b'.' ∷ []

abbrev service_name : List ℕ
service_name = b's' ∷ b'e' ∷ b'r' ∷ b'i' ∷ b'a' ∷ b'l' ∷ []

-- `_start` before its loop.
unfoldable pub start : World → List ℕ → Uart
start w uptimes =
    let s = print greeting (record { world = w; uptimes = uptimes; written = some [] }) in
    record s { world = (ctl_register_service service_name s.world).1 }
