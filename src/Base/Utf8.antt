-- ===== src/Base/Utf8.antt =====
-- `core::str::from_utf8`: which byte strings are UTF-8.
use Prim.Native.Nat.{ℕ, zero, suc}
use mathlib.Core.Bool.{Bool, true, false, ◌&&◌}
use mathlib.Core.Option.{Option, none, some}
use mathlib.Core.List.{List, [], ◌∷◌}
use mene_os.Base.Tests.{leb, ◌==◌, if◌then◌else◌}

abbrev in_range : ℕ → ℕ → ℕ → Bool
in_range lo hi b = leb lo b && leb b hi

-- What must follow a first byte: how many bytes, and the range of the next one.
abbrev lead : ℕ → Option (ℕ × ℕ × ℕ)
lead b =
    if leb b 0x7f
    then some (0, 0, 0)
    else if in_range 0xc2 0xdf b
    then some (1, 0x80, 0xbf)
    else if b == 0xe0
    then some (2, 0xa0, 0xbf)
    else if b == 0xed
    then some (2, 0x80, 0x9f)
    else if in_range 0xe1 0xef b
    then some (2, 0x80, 0xbf)
    else if b == 0xf0
    then some (3, 0x90, 0xbf)
    else if in_range 0xf1 0xf3 b
    then some (3, 0x80, 0xbf)
    else if b == 0xf4
    then some (3, 0x80, 0x8f)
    else none

utf8_from : ℕ → ℕ → ℕ → List ℕ → Bool
utf8_from zero lo hi [] = true
utf8_from (suc n) lo hi [] = false
utf8_from zero lo hi (b ∷ bs) = elim (lead b) [ none ↦ false | some (n, l, h) ↦ utf8_from n l h bs ]
utf8_from (suc n) lo hi (b ∷ bs) = in_range lo hi b && utf8_from n 0x80 0xbf bs

unfoldable pub is_utf8 : List ℕ → Bool
unfolding utf8_from
is_utf8 bytes = utf8_from 0 0 0 bytes
