-- ===== src/Serial.antt =====
-- apps/serial/src/main.rs: what the service writes to the UART, as the bytes in their order.
-- `none` stands for the panic of a write past the end of the buffer of `print_usize`.
pub mod Decimal
pub mod Start
mod Tests
use mene_os.Base.{
  ℕ, zero, suc, ◌+◌, ◌/◌, ◌%◌, Bool, ◌||◌, List, [], ◌∷◌, ◌++◌, Option, none, some, length, set,
  get_or, replicate, ltb, ◌==◌, if◌then◌else◌,
}

-- The first loop of `print_usize`: the digits, lowest first, from `i`, in `buf`. The loop has fuel
-- for one more round than the buffer has places.
unfoldable pub fill_digits : ℕ → ℕ → ℕ → List ℕ → Option (ℕ × List ℕ)
fill_digits zero n i buf = none
fill_digits (suc fuel) n i buf =
    let rest = fill_digits fuel (n / 10) (i + 1) (set buf i (48 + n % 10)) in
    if n == 0 then some (i, buf) else if ltb i (length buf) then rest else none

-- The second loop: the first `i` places, backwards.
unfoldable pub emit : ℕ → List ℕ → List ℕ
emit zero buf = []
emit (suc i) buf = get_or buf i 0 ∷ emit i buf

abbrev pub emitted : Option (ℕ × List ℕ) → Option (List ℕ)
emitted none = none
emitted (some (i, buf)) = some (emit i buf)

unfoldable pub print_usize : ℕ → Option (List ℕ)
print_usize n = if n == 0 then some (b'0' ∷ []) else emitted (fill_digits 21 n 0 (replicate 20 0))

abbrev pub append_all : Option (List ℕ) → List ℕ → Option (List ℕ)
append_all none more = none
append_all (some bytes) more = some (bytes ++ more)

abbrev pub prepend : ℕ → Option (List ℕ) → Option (List ℕ)
prepend b none = none
prepend b (some bytes) = some (b ∷ bytes)

unfoldable pub print_prefix : ℕ → Option (List ℕ)
print_prefix now_ms =
    let secs = now_ms / 1000 in
    let millis = now_ms % 1000 in
    append_all (prepend b'[' (print_usize secs)) (
      b'.'
      ∷ (48 + millis / 100 % 10)
      ∷ (48 + millis / 10 % 10)
      ∷ (48 + millis % 10)
      ∷ b']'
      ∷ b' '
      ∷ [])

abbrev pub one_line : ℕ → ℕ
one_line b = if b == 10 || b == 13 then b' ' else b

abbrev pub line_of : List ℕ → List ℕ
line_of [] = []
line_of (b ∷ msg) = one_line b ∷ line_of msg

unfoldable pub print_record : ℕ → List ℕ → Option (List ℕ)
print_record now_ms msg = append_all (print_prefix now_ms) (line_of msg ++ 10 ∷ [])
