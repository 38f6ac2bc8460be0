-- ===== src/Serial/Start/Lines.antt =====
-- What stands on the UART: one line for each message.
use mene_os.Base.{
  ℕ, zero, suc, ◌+◌, ◌/◌, ◌%◌, ◌^◌, ◌≡◌, ◌≢◌, ◌<◌, ◌⊎◌, refl, sym, ◌∙◌, ap, subst, ◌||◌, List, [],
  ◌∷◌, ◌++◌, Option, none, some, arith, take, ◌==◌, if◌then◌else◌, Bool-cases, inl, inr,
}
use mathlib.Core.List.{append_assoc, append-nil}
use mene_os.Ulib.World.{World}
use mene_os.Ulib.Ipc.{Recv, sys_ipc_recv_timeout}
use mene_os.Serial.{print_prefix, print_record, line_of, one_line}
use mene_os.Serial.Decimal.{AreDigits, print_usize-value}
use mene_os.Serial.Start.{Uart, next_uptime, print, on_message, round, rounds}

-- No line break.
abbrev pub NoBreak : List ℕ → Type 0
NoBreak [] = Unit {0}
NoBreak (b ∷ bs) = (b ≢ 10) × NoBreak bs

-- `n` lines, each ended by its line break.
abbrev pub Lines : ℕ → List ℕ → Type 0
Lines zero bytes = bytes ≡ []
Lines (suc n) bytes =
    (line : List ℕ) × (rest : List ℕ) × (bytes ≡ line ++ 10 ∷ rest) × NoBreak line × Lines n rest

NoBreak-append : (l m : List ℕ) → NoBreak l → NoBreak m → NoBreak (l ++ m)
NoBreak-append [] m a b = b
NoBreak-append (x ∷ l) m a b = (a.0, NoBreak-append l m a.1 b)

AreDigits-NoBreak : (l : List ℕ) → AreDigits l → NoBreak l
AreDigits-NoBreak [] h = tt
AreDigits-NoBreak (x ∷ l) h = ((λ e. omega (arith, e, h.0)), AreDigits-NoBreak l h.1)

line_of-NoBreak : (msg : List ℕ) → NoBreak (line_of msg)
line_of-NoBreak [] = tt
line_of-NoBreak (b ∷ msg) = (kept, line_of-NoBreak msg)
  where
    kept : one_line b ≢ 10
    kept = elim (Bool-cases (b == 10 || b == 13)) [
      | inl break ↦ rw break (λ e. omega (arith, e))
      | inr other ↦ rw other (ground (arith, other))
    ]

-- A record is one line, at any time that is a 64-bit number.
print_record_line :
    (now_ms : ℕ) (msg : List ℕ)
    → now_ms < 2 ^ 64
    → (line : List ℕ) × (print_record now_ms msg ≡ some (line ++ 10 ∷ [])) × NoBreak line
unfolding print_record print_prefix
print_record_line now_ms msg small =
    let (digits, printed, denotes, short, are_digits) =
      print_usize-value (now_ms / 1000) (omega arith) in
    let millis = now_ms % 1000 in
    let rest =
      b'.'
      ∷ (48 + millis / 100 % 10)
      ∷ (48 + millis / 10 % 10)
      ∷ (48 + millis % 10)
      ∷ b']'
      ∷ b' '
      ∷ [] in
    let rest_plain : NoBreak rest = (
      (λ e. omega (arith, e)),
      (
        (λ e. omega (arith, e)),
        (
          (λ e. omega (arith, e)),
          ((λ e. omega (arith, e)), ((λ e. omega (arith, e)), ((λ e. omega (arith, e)), tt))),
        ),
      ),
    ) in
    let front = b'[' ∷ (digits ++ rest) in
    (
      front ++ line_of msg,
      rw printed (ap some (sym (append_assoc front (line_of msg) (10 ∷ [])))),
      NoBreak-append front (line_of msg)
          (
            (λ e. omega (arith, e)),
            NoBreak-append digits rest (AreDigits-NoBreak digits are_digits) rest_plain,
          )
          (line_of-NoBreak msg),
    )

-- The clock gives 64-bit numbers.
abbrev pub AllSmall : List ℕ → Type 0
AllSmall [] = Unit {0}
AllSmall (t ∷ ts) = (t < 2 ^ 64) × AllSmall ts

-- The messages that arrive in `n` rounds and are not empty.
abbrev pub is_message : Option ℕ → ℕ
is_message none = 0
is_message (some len) = if len == 0 then 0 else 1

pub heard : ℕ → World → ℕ
heard zero w = 0
heard (suc n) w = let (r, w') = sys_ipc_recv_timeout w in is_message r.result + heard n w'

-- From `out`, the UART got `n` lines more.
abbrev pub Printed : List ℕ → ℕ → Option (List ℕ) → Type 0
Printed out n written = (more : List ℕ) × (written ≡ some (out ++ more)) × Lines n more

Printed-line :
    (out line : List ℕ) (n : ℕ) (written : Option (List ℕ))
    → NoBreak line
    → Printed (out ++ (line ++ 10 ∷ [])) n written
    → Printed out (suc n) written
Printed-line out line n written plain (more, e, lines) = (
  (line ++ 10 ∷ []) ++ more,
  e ∙ ap some (append_assoc out (line ++ 10 ∷ []) more),
  (line, more, append_assoc line (10 ∷ []) more, plain, lines),
)

-- What a round leaves on the UART: nothing new for no message, or a line for one.
abbrev OneRound : List ℕ → ℕ → Uart → Uart → Type 0
OneRound out heard_now s t =
    (t.world ≡ s.world)
    × AllSmall t.uptimes
    × (((heard_now ≡ 0) × (t.written ≡ some out))
        ⊎ ((heard_now ≡ 1)
            × ((line : List ℕ) × (t.written ≡ some (out ++ (line ++ 10 ∷ []))) × NoBreak line)))

next_uptime-AllSmall :
    (ts : List ℕ) → AllSmall ts → ((next_uptime ts).0 < 2 ^ 64) × AllSmall (next_uptime ts).1
next_uptime-AllSmall [] h = (omega arith, tt)
next_uptime-AllSmall (t ∷ ts) h = h

print-OneRound :
    (msg out : List ℕ) (s : Uart)
    → AllSmall s.uptimes
    → s.written ≡ some out
    → OneRound out 1 s (print msg s)
print-OneRound msg out s small e =
    let (now_small, later_small) = next_uptime-AllSmall s.uptimes small in
    let (line, printed, plain) = print_record_line (next_uptime s.uptimes).0 msg now_small in
    (refl, later_small, inr (refl, (line, rw (e, printed) refl, plain)))

on_message-OneRound :
    (r : Recv) (out : List ℕ) (s : Uart)
    → AllSmall s.uptimes
    → s.written ≡ some out
    → OneRound out (is_message r.result) s (on_message r s)
on_message-OneRound r out s small e = by_result r.result
  where
    by_result :
        (x : Option ℕ) → OneRound out (is_message x) s (on_message (record r { result = x }) s)
    by_result none = (refl, small, inl (refl, e))
    by_result (some len) = elim (Bool-cases (len == 0)) [
      | inl empty ↦ rw empty (refl, small, inl (refl, e))
      | inr full ↦ rw full (print-OneRound (take len r.buf) out s small e)
    ]

-- If the clock gives 64-bit numbers, the service never panics, and in any number of rounds it prints
-- exactly one line for each message that is not empty.
pub rounds-Printed :
    (n : ℕ) (s : Uart) (out : List ℕ)
    → AllSmall s.uptimes
    → s.written ≡ some out
    → Printed out (heard n s.world) (rounds n s).written
unfolding rounds heard round
rounds-Printed zero s out small e = ([], e ∙ ap some (sym (append-nil out)), refl)
rounds-Printed (suc n) s out small e =
    let (r, w) = sys_ipc_recv_timeout s.world in
    let (same, later, what) = on_message-OneRound r out (record s { world = w }) small e in
    elim what [
      | inl (silent, kept) ↦
          let so_many : heard n (round s).world ≡ is_message r.result + heard n w =
            ap (heard n) same ∙ omega (arith, silent) in
          subst (λ k. Printed out k (rounds n (round s)).written) so_many
            (rounds-Printed n (round s) out later kept)
      | inr (spoke, (line, printed, plain)) ↦
          let so_many : suc (heard n (round s).world) ≡ is_message r.result + heard n w =
            ap (λ x. suc (heard n x)) same ∙ omega (arith, spoke) in
          subst (λ k. Printed out k (rounds n (round s)).written) so_many
            (Printed-line out line (heard n (round s).world) (rounds n (round s)).written plain
              (rounds-Printed n (round s) (out ++ (line ++ 10 ∷ [])) later printed))
    ]
