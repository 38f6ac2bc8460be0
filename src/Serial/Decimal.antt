-- ===== src/Serial/Decimal.antt =====
-- The digits of `print_usize`.
use mene_os.Base.{
  ℕ, zero, suc, ◌+◌, ◌-◌, ◌*◌, ◌/◌, ◌%◌, ◌^◌, ◌≤◌, ◌<◌, ◌≡◌, refl, sym, ◌∙◌, ap, true, List, [],
  ◌∷◌, some, arith, length, set, replicate, length-set, get_or-set_self, get_or-set_ne, ltb, ◌==◌,
  Bool-cases, inl, inr,
}
use native.Mathlib.Nat.{pow-suc, add_assoc}
use mene_os.Serial.{fill_digits, emit, print_usize}

-- The number that a list of decimal digits denotes, the highest first.
pub value : List ℕ → ℕ
value [] = 0
value (b ∷ bs) = (b - 48) * 10 ^ length bs + value bs

-- The bytes of the decimal digits.
abbrev pub AreDigits : List ℕ → Type 0
AreDigits [] = Unit {0}
AreDigits (b ∷ bs) = ((48 ≤ b) × (b ≤ 57)) × AreDigits bs

length-emit : (i : ℕ) (buf : List ℕ) → length (emit i buf) ≡ i
unfolding emit
length-emit zero buf = refl
length-emit (suc i) buf = ap suc (length-emit i buf)

emit-set : (i j : ℕ) (buf : List ℕ) (v : ℕ) → i ≤ j → emit i (set buf j v) ≡ emit i buf
unfolding emit
emit-set zero j buf v h = refl
emit-set (suc i) j buf v h =
    rw (get_or-set_ne buf j i v 0 (omega arith), emit-set i j buf v (omega arith)) refl

value-emit-set :
    (i d : ℕ) (buf : List ℕ)
    → i < length buf
    → value (emit (suc i) (set buf i (48 + d))) ≡ d * 10 ^ i + value (emit i buf)
unfolding emit value
value-emit-set i d buf h =
    let digit : 48 + d - 48 ≡ d = omega arith in
    rw
      (
        emit-set i i buf (48 + d) (omega arith),
        get_or-set_self buf i (48 + d) 0 h,
        length-emit i buf,
        digit,
      )
      refl

emit-AreDigits :
    (i d : ℕ) (buf : List ℕ)
    → i < length buf
    → d < 10
    → AreDigits (emit i buf)
    → AreDigits (emit (suc i) (set buf i (48 + d)))
unfolding emit
emit-AreDigits i d buf h lt a =
    rw (emit-set i i buf (48 + d) (omega arith), get_or-set_self buf i (48 + d) 0 h)
      ((omega arith, omega arith), a)

shift_digit : (q d p : ℕ) → q * (10 * p) + d * p ≡ (10 * q + d) * p
shift_digit q d p = grind arith

digits_split : (n i low : ℕ) → n / 10 * 10 ^ (i + 1) + (n % 10 * 10 ^ i + low) ≡ n * 10 ^ i + low
digits_split n i low =
    let next : i + 1 ≡ suc i = omega arith in
    let power : 10 ^ (i + 1) ≡ 10 * 10 ^ i = rw next (omega (arith, pow-suc 10 i)) in
    let number : 10 * (n / 10) + n % 10 ≡ n = omega arith in
    let shifted = shift_digit (n / 10) (n % 10) (10 ^ i) in
    let whole = ap (λ k. k * 10 ^ i) number in
    rw power (
      sym (add_assoc (n / 10 * (10 * 10 ^ i)) (n % 10 * 10 ^ i) low)
      ∙ ap (λ k. k + low) (shifted ∙ whole))

-- What the loop leaves: the digits of `n` above those of the places before `i`.
fill_digits-value :
    (fuel n i : ℕ) (buf : List ℕ)
    → n < 10 ^ fuel
    → i + fuel ≤ length buf
    → AreDigits (emit i buf)
    → (j : ℕ) × (out : List ℕ) × (fill_digits (suc fuel) n i buf ≡ some (j, out))
      × (j ≤ i + fuel)
      × AreDigits (emit j out)
      × (value (emit j out) ≡ n * 10 ^ i + value (emit i buf))
unfolding fill_digits
fill_digits-value zero n i buf small room low =
    let none_left : n ≡ 0 = omega (arith, small) in
    (i, buf, rw none_left refl, omega arith, low, rw none_left (omega arith))
fill_digits-value (suc fuel) n i buf small room low = elim (Bool-cases (n == 0)) [
  | inl stop ↦
      let none_left : n ≡ 0 = ground (arith, stop) in
      (i, buf, rw none_left refl, omega arith, low, rw none_left (omega arith))
  | inr go ↦
      let buf' = set buf i (48 + n % 10) in
      let below : n / 10 < 10 ^ fuel = omega (arith, small, pow-suc 10 fuel) in
      let same : length buf' ≡ length buf = length-set buf i (48 + n % 10) in
      let inside : ltb i (length buf) ≡ true = ground (arith, room) in
      let next : i + 1 ≡ suc i = omega arith in
      let more : AreDigits (emit (i + 1) buf') =
        rw next (emit-AreDigits i (n % 10) buf (omega (arith, room)) (omega arith) low) in
      let (j, out, e, hi, digits, v) =
        fill_digits-value fuel (n / 10) (i + 1) buf' below (omega (arith, same, room)) more in
      (
        j,
        out,
        rw (go, inside) e,
        omega (arith, hi),
        digits,
        v
            ∙ ap (λ k. n / 10 * 10 ^ (i + 1) + k)
                (ap (λ k. value (emit k buf')) next
                  ∙ value-emit-set i (n % 10) buf (omega (arith, room)))
            ∙ digits_split n i (value (emit i buf)),
      )
]

-- A number of 64 bits is printed without a panic, as at most 20 decimal digits that denote it.
pub print_usize-value :
    (n : ℕ)
    → n < 2 ^ 64
    → (digits : List ℕ) × (print_usize n ≡ some digits)
      × (value digits ≡ n)
      × (length digits ≤ 20)
      × AreDigits digits
unfolding print_usize value emit
print_usize-value n small = elim (Bool-cases (n == 0)) [
  | inl stop ↦
      (b'0' ∷ [], rw stop refl, ground (arith, stop), omega arith, ((omega arith, omega arith), tt))
  | inr go ↦
      let (j, out, e, hi, digits, v) =
        fill_digits-value 20 n 0 (replicate 20 0) (omega arith) (omega arith) tt in
      (emit j out, rw (go, e) refl, v ∙ omega arith, omega (arith, hi, length-emit j out), digits)
]
