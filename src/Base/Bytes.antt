-- ===== src/Base/Bytes.antt =====
-- Little-endian bytes: `to_le_bytes` and `from_le_bytes` of an unsigned integer of `k` bytes.
use Prim.Native.Nat.{ℕ, zero, suc, ◌+◌, ◌*◌, ◌/◌, ◌%◌, ◌^◌, ◌<◌}
use mathlib.Core.Path.{◌≡◌, refl, ap, ap₂}
use mathlib.Core.List.{List, [], ◌∷◌}
use native.Mathlib.Nat.{pow-suc}
use native.Mathlib.Omega.{arith}
use mene_os.Base.Lists.{length}

-- A byte is a number below 256, a byte string a list of them.
abbrev pub AreBytes : List ℕ → Type 0
AreBytes [] = Unit {0}
AreBytes (b ∷ bs) = (b < 256) × AreBytes bs

unfoldable pub to_le : ℕ → ℕ → List ℕ
to_le zero n = []
to_le (suc k) n = (n % 256) ∷ to_le k (n / 256)

unfoldable pub from_le : List ℕ → ℕ
from_le [] = 0
from_le (b ∷ bs) = b + 256 * from_le bs

pub length-to_le : (k n : ℕ) → length (to_le k n) ≡ k
unfolding to_le
length-to_le zero n = refl
length-to_le (suc k) n = ap suc (length-to_le k (n / 256))

pub to_le-AreBytes : (k n : ℕ) → AreBytes (to_le k n)
unfolding to_le
to_le-AreBytes zero n = tt
to_le-AreBytes (suc k) n = (omega arith, to_le-AreBytes k (n / 256))

pub from_le-to_le : (k n : ℕ) → n < 256 ^ k → from_le (to_le k n) ≡ n
unfolding to_le from_le
from_le-to_le zero n h = omega arith
from_le-to_le (suc k) n h = omega (arith, from_le-to_le k (n / 256) (omega arith))

pub to_le-from_le : (bs : List ℕ) → AreBytes bs → to_le (length bs) (from_le bs) ≡ bs
unfolding to_le from_le
to_le-from_le [] h = refl
to_le-from_le (b ∷ bs) h =
    let r = from_le bs in ap₂ ◌∷◌ (omega arith) (rw (tail_part b r h.0) (to_le-from_le bs h.1))
  where
    tail_part : (c m : ℕ) → c < 256 → (c + 256 * m) / 256 ≡ m
    tail_part c m hc = omega arith

pub from_le-lt : (bs : List ℕ) → AreBytes bs → from_le bs < 256 ^ length bs
unfolding from_le
from_le-lt [] h = omega arith
from_le-lt (b ∷ bs) h = omega (arith, from_le-lt bs h.1, pow-suc 256 (length bs))
