-- ===== src/Base/Text.antt =====
-- `str` of the core library, as the bytes of its UTF-8 form: `find` and `split` with an ASCII
-- character, `lines`, `trim`, `starts_with` and `ends_with`.
use Prim.Native.Nat.{ℕ, zero, suc}
use mathlib.Core.Bool.{Bool, false, ◌&&◌, ◌||◌}
use mathlib.Core.Option.{Option, none, some}
use mathlib.Core.List.{List, [], ◌∷◌, ◌++◌}
use mene_os.Base.Tests.{leb, ◌==◌, if◌then◌else◌, bytes_eq}
use mene_os.Base.Lists.{length, take, drop}

abbrev up : Option ℕ → Option ℕ
up none = none
up (some n) = some (suc n)

-- `find(c)`
unfoldable pub find_byte : ℕ → List ℕ → Option ℕ
find_byte c [] = none
find_byte c (b ∷ bs) = if b == c then some 0 else up (find_byte c bs)

abbrev pub starts_with : List ℕ → List ℕ → Bool
starts_with prefix s = bytes_eq (take (length prefix) s) prefix

-- `ends_with(c)`
unfoldable pub ends_with : ℕ → List ℕ → Bool
ends_with c [] = false
ends_with c (b ∷ []) = b == c
ends_with c (b ∷ d ∷ bs) = ends_with c (d ∷ bs)

abbrev in_range : ℕ → ℕ → ℕ → Bool
in_range lo hi b = leb lo b && leb b hi

-- The three bytes of a white space character beyond U+07FF.
abbrev wide_space : ℕ → ℕ → ℕ → Bool
wide_space a b c =
    a == 0xe1 && b == 0x9a && c == 0x80
    || a == 0xe2 && b == 0x80 && (in_range 0x80 0x8a c || c == 0xa8 || c == 0xa9 || c == 0xaf)
    || a == 0xe2 && b == 0x81 && c == 0x9f
    || a == 0xe3 && b == 0x80 && c == 0x80

abbrev ascii_space : ℕ → Bool
ascii_space b = in_range 9 13 b || b == 32

abbrev latin_space : ℕ → ℕ → Bool
latin_space a b = a == 0xc2 && (b == 0x85 || b == 0xa0)

-- The number of bytes of the white space character at the front, 0 if there is none.
unfoldable pub space_len : List ℕ → ℕ
space_len [] = 0
space_len (a ∷ []) = if ascii_space a then 1 else 0
space_len (a ∷ b ∷ []) = if ascii_space a then 1 else if latin_space a b then 2 else 0
space_len (a ∷ b ∷ c ∷ s) =
    if ascii_space a then 1 else if latin_space a b then 2 else if wide_space a b c then 3 else 0

unfoldable pub trim_spaces : ℕ → List ℕ → List ℕ
trim_spaces zero s = s
trim_spaces (suc fuel) s =
    let n = space_len s in let rest = trim_spaces fuel (drop n s) in if n == 0 then s else rest

-- A round for each byte is enough.
unfoldable pub trim_start : List ℕ → List ℕ
trim_start s = trim_spaces (length s) s

-- What is left before the longest end that is white space only.
unfoldable pub trim_end : List ℕ → List ℕ
trim_end [] = []
trim_end (b ∷ bs) =
    let rest = trim_end bs in if length (trim_start (b ∷ bs)) == 0 then [] else b ∷ rest

unfoldable pub trim : List ℕ → List ℕ
trim s = trim_end (trim_start s)

-- `split(c)`, with the bytes of the current part.
unfoldable pub split_onto : ℕ → List ℕ → List ℕ → List (List ℕ)
split_onto c part [] = part ∷ []
split_onto c part (b ∷ bs) =
    let here = part ∷ split_onto c [] bs in
    let on = split_onto c (part ++ b ∷ []) bs in if b == c then here else on

abbrev pub split : ℕ → List ℕ → List (List ℕ)
split c s = split_onto c [] s

-- A line without the `\r` before its `\n`.
unfoldable pub strip_cr : List ℕ → List ℕ
strip_cr [] = []
strip_cr (b ∷ []) = if b == 13 then [] else b ∷ []
strip_cr (b ∷ d ∷ bs) = b ∷ strip_cr (d ∷ bs)

-- `lines()`, with the bytes of the current line; nothing follows a final `\n`.
unfoldable pub lines_onto : List ℕ → List ℕ → List (List ℕ)
lines_onto [] [] = []
lines_onto (a ∷ line) [] = (a ∷ line) ∷ []
lines_onto line (b ∷ bs) =
    let here = strip_cr line ∷ lines_onto [] bs in
    let on = lines_onto (line ++ b ∷ []) bs in if b == 10 then here else on

abbrev pub lines : List ℕ → List (List ℕ)
lines s = lines_onto [] s

-- `contains(needle)`
unfoldable pub contains : List ℕ → List ℕ → Bool
contains needle [] = length needle == 0
contains needle (b ∷ bs) = let rest = contains needle bs in starts_with needle (b ∷ bs) || rest
