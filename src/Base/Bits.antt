-- ===== src/Base/Bits.antt =====
-- Machine words as their bits, the lowest first.
use Prim.Native.Nat.{ℕ, zero, suc, ◌+◌, ◌<◌}
use mathlib.Core.Path.{◌≡◌, refl, sym}
use mathlib.Core.Bool.{Bool, true, false, not, ◌&&◌, ◌||◌, false≢true}
use mathlib.Core.Logic.{◌↔◌}
use mathlib.Core.List.{List, [], ◌∷◌}
use native.Mathlib.Omega.{arith}
use mene_os.Base.Lists.{length, get_or, set}

abbrev pub Mask : Type 0
Mask = List Bool

-- `mask & (1 << i) != 0`
abbrev pub bit : Mask → ℕ → Bool
bit m i = get_or m i false

-- `mask | (1 << i)`
abbrev pub set_bit : Mask → ℕ → Mask
set_bit m i = set m i true

-- `wants & !has != 0`, where a word ends in zeros.
unfoldable pub missing : Mask → Mask → Bool
missing [] has = false
missing (w ∷ wants) [] = w || missing wants []
missing (w ∷ wants) (h ∷ has) = (w && not h) || missing wants has

-- `a == b`
unfoldable pub mask_eq : Mask → Mask → Bool
mask_eq [] [] = true
mask_eq [] (b ∷ bs) = false
mask_eq (a ∷ l) [] = false
mask_eq (true ∷ l) (b ∷ bs) = b && mask_eq l bs
mask_eq (false ∷ l) (b ∷ bs) = not b && mask_eq l bs

-- A larger word misses no more.
pub missing-set_bit :
    (wants has : Mask) (i : ℕ) → missing wants has ≡ false → missing wants (set_bit has i) ≡ false
unfolding missing
missing-set_bit [] has i h = refl
missing-set_bit (w ∷ wants) [] i h = h
missing-set_bit (w ∷ wants) (b ∷ has) zero h = ground arith
missing-set_bit (w ∷ wants) (b ∷ has) (suc i) h = ground (arith, missing-set_bit wants has i)

-- The number of bits that are not set.
unfoldable pub unset : Mask → ℕ
unset [] = 0
unset (true ∷ m) = unset m
unset (false ∷ m) = suc (unset m)

pub unset-set_bit :
    (m : Mask) (i : ℕ) → i < length m → bit m i ≡ false → unset (set_bit m i) + 1 ≡ unset m
unfolding unset
unset-set_bit [] i h b = elim h [ ]
unset-set_bit (true ∷ m) zero h b = cc
unset-set_bit (false ∷ m) zero h b = omega arith
unset-set_bit (true ∷ m) (suc i) h b = unset-set_bit m i (omega arith) b
unset-set_bit (false ∷ m) (suc i) h b = omega (arith, unset-set_bit m i (omega arith) b)

pub mask_eq→eq : (a b : Mask) → mask_eq a b ≡ true → a ≡ b
unfolding mask_eq
mask_eq→eq [] [] h = refl
mask_eq→eq [] (b ∷ bs) h = cc
mask_eq→eq (a ∷ l) [] h = cc
mask_eq→eq (true ∷ l) (b ∷ bs) h = ground (arith, mask_eq→eq l bs)
mask_eq→eq (false ∷ l) (b ∷ bs) h = ground (arith, mask_eq→eq l bs)

missing-bit :
    (wants has : Mask) (k : ℕ) → missing wants has ≡ false → bit wants k ≡ true → bit has k ≡ true
unfolding missing
missing-bit [] has k h b = absurd (false≢true b)
missing-bit (true ∷ wants) [] k h b = absurd (false≢true (sym h))
missing-bit (false ∷ wants) [] zero h b = absurd (false≢true b)
missing-bit (false ∷ wants) [] (suc k) h b = missing-bit wants [] k h b
missing-bit (w ∷ wants) (a ∷ has) zero h b = ground (arith, h, b)
missing-bit (w ∷ wants) (a ∷ has) (suc k) h b = missing-bit wants has k (ground (arith, h)) b

bit-missing :
    (wants has : Mask)
    → ((k : ℕ) → bit wants k ≡ true → bit has k ≡ true)
    → missing wants has ≡ false
unfolding missing
bit-missing [] has h = refl
bit-missing (true ∷ wants) [] h = absurd (false≢true (h zero refl))
bit-missing (false ∷ wants) [] h = bit-missing wants [] (λ k b. h (suc k) b)
bit-missing (true ∷ wants) (a ∷ has) h =
    let first : a ≡ true = h zero refl in rw first (bit-missing wants has (λ k b. h (suc k) b))
bit-missing (false ∷ wants) (a ∷ has) h = bit-missing wants has (λ k b. h (suc k) b)

-- Nothing is missing exactly if each bit that is wanted is there.
pub missing_iff :
    (wants has : Mask)
    → (missing wants has ≡ false) ↔ ((k : ℕ) → bit wants k ≡ true → bit has k ≡ true)
missing_iff wants has = (λ h k. missing-bit wants has k h, bit-missing wants has)
