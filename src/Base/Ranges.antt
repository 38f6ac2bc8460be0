-- ===== src/Base/Ranges.antt =====
-- Reads and writes of ranges of a list, byte by byte.
use Prim.Native.Nat.{ℕ, zero, suc, ◌+◌, ◌-◌, ◌≤◌}
use mathlib.Core.Path.{◌≡◌, refl, ap₂, ◌∙◌}
use mathlib.Core.List.{List, [], ◌∷◌, ◌++◌}
use mathlib.Core.Option.{none}
use mathlib.Core.Bool.{◌&&◌}
use native.Mathlib.Omega.{arith}
use mene_os.Base.Tests.{ltb, leb, if◌then◌else◌, Bool-cases}
use mathlib.Core.Logic.{inl, inr}
use mene_os.Base.Lists.{
  length, get_elem?, take, drop, slice, copy_at, length-append, length-take, length-drop,
}

module _ {A : Type 0} where
  pub list_ext : (xs ys : List A) → ((i : ℕ) → get_elem? xs i ≡ get_elem? ys i) → xs ≡ ys
  list_ext [] [] h = refl
  list_ext [] (y ∷ ys) h = cc (h 0)
  list_ext (x ∷ xs) [] h = cc (h 0)
  list_ext (x ∷ xs) (y ∷ ys) h = ap₂ ◌∷◌ (ground (arith, h 0)) (list_ext xs ys (λ i. h (suc i)))

  pub get_elem?-append :
      (xs ys : List A) (i : ℕ)
      → get_elem? (xs ++ ys) i
        ≡ (if ltb i (length xs) then get_elem? xs i else get_elem? ys (i - length xs))
  get_elem?-append [] ys i = let e : i - 0 ≡ i = omega arith in rw e (ground arith)
  get_elem?-append (x ∷ xs) ys zero = ground arith
  get_elem?-append (x ∷ xs) ys (suc i) =
      let e : suc i - suc (length xs) ≡ i - length xs = omega arith in
      rw e (ground (arith, get_elem?-append xs ys i))

  get_elem?-drop : (n i : ℕ) (xs : List A) → get_elem? (drop n xs) i ≡ get_elem? xs (n + i)
  get_elem?-drop zero i xs = let e : zero + i ≡ i = omega arith in rw e
  get_elem?-drop (suc n) i [] = refl
  get_elem?-drop (suc n) i (x ∷ xs) =
      let e : suc n + i ≡ suc (n + i) = omega arith in rw e (get_elem?-drop n i xs)

  get_elem?-take :
      (n i : ℕ) (xs : List A) → get_elem? (take n xs) i ≡ (if ltb i n then get_elem? xs i else none)
  get_elem?-take zero i xs = ground arith
  get_elem?-take (suc n) i [] = ground arith
  get_elem?-take (suc n) zero (x ∷ xs) = ground arith
  get_elem?-take (suc n) (suc i) (x ∷ xs) = ground (arith, get_elem?-take n i xs)

  pub get_elem?_past : (i : ℕ) (xs : List A) → length xs ≤ i → get_elem? xs i ≡ none
  get_elem?_past i [] h = refl
  get_elem?_past zero (x ∷ xs) h = absurd (omega arith)
  get_elem?_past (suc i) (x ∷ xs) h = get_elem?_past i xs (omega arith)

  pub get_elem?-slice :
      (off n i : ℕ) (xs : List A)
      → get_elem? (slice off n xs) i ≡ (if ltb i n then get_elem? xs (off + i) else none)
  unfolding slice
  get_elem?-slice off n i xs =
      ground (arith, get_elem?-take n i (drop off xs), get_elem?-drop off i xs)

  pub get_elem?-copy_at :
      (off i : ℕ) (src dst : List A)
      → off + length src ≤ length dst
      → get_elem? (copy_at off src dst) i ≡ (
          if leb off i && ltb i (off + length src)
          then get_elem? src (i - off)
          else get_elem? dst i)
  unfolding copy_at
  get_elem?-copy_at off i src dst h =
      let front : length (take off dst) ≡ off = omega (arith, length-take off dst) in
      let back = src ++ drop (off + length src) dst in
      get_elem?-append (take off dst) back i
      ∙ rw front (elim (Bool-cases (ltb i off)) [
        | inl before ↦ ground (arith, get_elem?-take off i dst)
        | inr after ↦ elim (Bool-cases (ltb (i - off) (length src))) [
          | inl inside ↦
              ground (arith, get_elem?-append src (drop (off + length src) dst) (i - off))
          | inr past ↦
              let same : off + length src + (i - off - length src) ≡ i = ground arith in
              rw
                (
                  after,
                  get_elem?-append src (drop (off + length src) dst) (i - off),
                  past,
                  get_elem?-drop (off + length src) (i - off - length src) dst,
                  same,
                )
                (ground arith)
        ]
      ])

  pub length-copy_at :
      (off : ℕ) (src dst : List A)
      → off + length src ≤ length dst
      → length (copy_at off src dst) ≡ length dst
  unfolding copy_at
  length-copy_at off src dst h = omega (
    arith,
    length-append (take off dst) (src ++ drop (off + length src) dst),
    length-append src (drop (off + length src) dst),
    length-take off dst,
    length-drop (off + length src) dst,
  )

  pub length-slice : (off n : ℕ) (xs : List A) → off + n ≤ length xs → length (slice off n xs) ≡ n
  unfolding slice
  length-slice off n xs h = omega (arith, length-take n (drop off xs), length-drop off xs)

  pub copy_at-copy_at :
      (off : ℕ) (src more dst : List A)
      → off + (length src + length more) ≤ length dst
      → copy_at (off + length src) more (copy_at off src dst) ≡ copy_at off (src ++ more) dst
  copy_at-copy_at off src more dst h = list_ext _ _ λ i.
      let all : length (src ++ more) ≡ length src + length more = length-append src more in
      rw
        (
          get_elem?-copy_at (off + length src) i more (copy_at off src dst)
              (omega (arith, length-copy_at off src dst (omega arith))),
          get_elem?-copy_at off i src dst (omega arith),
          get_elem?-copy_at off i (src ++ more) dst (omega (arith, all)),
          get_elem?-append src more (i - off),
          all,
        )
        (let same : i - (off + length src) ≡ i - off - length src = omega arith in
          rw same (ground arith))

  pub copy_at-slice :
      (base len off : ℕ) (src dst : List A)
      → off + length src ≤ len
      → base + len ≤ length dst
      → copy_at base (copy_at off src (slice base len dst)) dst ≡ copy_at (base + off) src dst
  copy_at-slice base len off src dst h h' = list_ext _ _ λ i.
      let part : length (slice base len dst) ≡ len = length-slice base len dst h' in
      let whole : length (copy_at off src (slice base len dst)) ≡ len =
        length-copy_at off src (slice base len dst) (omega (arith, part)) ∙ part in
      rw
        (
          get_elem?-copy_at base i (copy_at off src (slice base len dst)) dst
              (omega (arith, whole)),
          whole,
          get_elem?-copy_at off (i - base) src (slice base len dst) (omega (arith, part)),
          get_elem?-slice base len (i - base) dst,
          get_elem?-copy_at (base + off) i src dst (omega arith),
        )
        (let same : i - (base + off) ≡ i - base - off = omega arith in
          rw same (elim (Bool-cases (leb base i)) [
            | inl from ↦
                let at : base + (i - base) ≡ i = ground (arith, from) in rw at (ground arith)
            | inr before ↦ ground arith
          ]))

  pub slice-copy_at_self :
      (off : ℕ) (src dst : List A)
      → off + length src ≤ length dst
      → slice off (length src) (copy_at off src dst) ≡ src
  slice-copy_at_self off src dst h = list_ext _ _ λ i.
      rw
        (
          get_elem?-slice off (length src) i (copy_at off src dst),
          get_elem?-copy_at off (off + i) src dst h,
        )
        (let back : off + i - off ≡ i = omega arith in
          rw back (ground (arith, get_elem?_past i src)))
