-- ===== src/Init/BootGraph/Dependencies.antt =====
-- The masks of `resolve_dep_mask`: service `i` waits for service `j` exactly if `j` is the first
-- service with the name of a dependency of `i`.
use mene_os.Base.{
  ℕ, zero, suc, ◌+◌, ◌≤◌, ◌<◌, ◌≡◌, ◌↔◌, ◌⊎◌, inl, inr, refl, sym, ◌∙◌, ap, subst, true, false,
  List, arith, length, set, replicate, length-set, length-replicate, get_or-set_self, get_or-set_ne,
  ltb, leb, ◌&&◌, ◌==◌, if◌then◌else◌, Bool-cases,
}
use mathlib.Core.Bool.{false≢true}
use mene_os.Base.Bits.{Mask, bit}
use mene_os.Init.Services.{ServiceSpec, empty_spec, name_bytes}
use mene_os.Init.BootGraph.{find_dep, find_deps, dep_name, mask_of, resolve_from, resolve_dep_mask}
use mene_os.Init.BootGraph.Names.{spec_at, IsFirst, find_dep-bit, length-find_dep}

-- Service `j` is the one that a dependency of `spec` between `lo` and `hi` names.
pub record DependsOn (specs : List ServiceSpec) (count : ℕ) (spec : ServiceSpec) (lo hi j : ℕ)
    : Type 0 where
  pub dep : ℕ
  pub from : lo ≤ dep
  pub below : dep < hi
  pub first : IsFirst specs (dep_name spec dep) 0 j
  pub inside : j < count

module _ (specs : List ServiceSpec) (count : ℕ) (spec : ServiceSpec) (j : ℕ) where
  DependsOn-here :
      (di n : ℕ)
      → IsFirst specs (dep_name spec di) 0 j
      → j < count
      → DependsOn specs count spec di (di + suc n) j
  DependsOn-here di n f lt = record {
    dep = di;
    from = omega arith;
    below = omega arith;
    first = f;
    inside = lt;
  }

  DependsOn-widen :
      (di n : ℕ)
      → DependsOn specs count spec (di + 1) (di + 1 + n) j
      → DependsOn specs count spec di (di + suc n) j
  DependsOn-widen di n d = record {
    dep = d.dep;
    from = omega (arith, d.from);
    below = omega (arith, d.below);
    first = d.first;
    inside = d.inside;
  }

  DependsOn-cases :
      (di n : ℕ)
      → DependsOn specs count spec di (di + suc n) j
      → (IsFirst specs (dep_name spec di) 0 j × (j < count))
        ⊎ DependsOn specs count spec (di + 1) (di + 1 + n) j
  DependsOn-cases di n d = elim (Bool-cases (d.dep == di)) [
    | inl same ↦
        let e : d.dep ≡ di = ground (arith, same) in
        inl (subst (λ k. IsFirst specs (dep_name spec k) 0 j) e d.first, d.inside)
    | inr other ↦ inr (record {
      dep = d.dep;
      from = ground (arith, other, d.from);
      below = omega (arith, d.below);
      first = d.first;
      inside = d.inside;
    })
  ]

  find_deps-bit :
      (n di : ℕ) (m : Mask)
      → count ≤ length m
      → (bit (find_deps specs count spec n di m) j ≡ true)
        ↔ ((bit m j ≡ true) ⊎ DependsOn specs count spec di (di + n) j)
  unfolding find_deps
  find_deps-bit zero di m room =
      (λ h. inl h, λ h. elim h [ inl b ↦ b | inr d ↦ absurd (omega (arith, d.from, d.below)) ])
  find_deps-bit (suc n) di m room =
      let dname = dep_name spec di in
      let (to, back) = find_dep-bit specs dname count 0 m j (omega (arith, room)) in
      let same = length-find_dep specs dname count 0 m in
      let (to', back') =
        find_deps-bit n (di + 1) (find_dep specs dname count 0 m) (omega (arith, room, same)) in
      (
        λ h. elim (to' h) [
          | inl b ↦ elim (to b) [
            | inl old ↦ inl old
            | inr (f, lt) ↦ inr (DependsOn-here di n f (omega (arith, lt)))
          ]
          | inr d ↦ inr (DependsOn-widen di n d)
        ],
        λ h. elim h [
          | inl old ↦ back' (inl (back (inl old)))
          | inr d ↦ elim (DependsOn-cases di n d) [
            | inl (f, lt) ↦ back' (inl (back (inr (f, omega (arith, lt)))))
            | inr later ↦ back' (inr later)
          ]
        ],
      )

bit_none : (n j : ℕ) → bit (replicate n false) j ≡ false
bit_none zero j = refl
bit_none (suc n) zero = refl
bit_none (suc n) (suc j) = bit_none n j

mask_of-bit :
    (specs : List ServiceSpec) (count : ℕ) (spec : ServiceSpec) (j : ℕ)
    → count ≤ 32
    → (bit (mask_of specs count spec) j ≡ true) ↔ DependsOn specs count spec 0 spec.dep_count j
mask_of-bit specs count spec j small =
    let (to, back) =
      find_deps-bit specs count spec j spec.dep_count 0 (replicate 32 false)
        (omega (arith, small, length-replicate 32 false)) in
    let whole : 0 + spec.dep_count ≡ spec.dep_count = omega arith in
    (
      λ h. elim (to h) [
        | inl b ↦ absurd (false≢true (sym (bit_none 32 j) ∙ b))
        | inr d ↦ subst (λ k. DependsOn specs count spec 0 k j) whole d
      ],
      λ d. back (inr (subst (λ k. DependsOn specs count spec 0 k j) (sym whole) d)),
    )

-- The masks depend on the names only, which the loop keeps.
SameNames : List ServiceSpec → List ServiceSpec → Type 0
SameNames xs ys = (k : ℕ) → name_bytes (spec_at ys k) ≡ name_bytes (spec_at xs k)

module _ (xs ys : List ServiceSpec) (same : SameNames xs ys) where
  find_dep_same :
      (dname : List ℕ) (n lo : ℕ) (m : Mask) → find_dep ys dname n lo m ≡ find_dep xs dname n lo m
  unfolding find_dep SameNames
  find_dep_same dname zero lo m = refl
  find_dep_same dname (suc n) lo m = rw (same lo, find_dep_same dname n (lo + 1) m) refl

  find_deps_same :
      (count : ℕ) (spec : ServiceSpec) (n di : ℕ) (m : Mask)
      → find_deps ys count spec n di m ≡ find_deps xs count spec n di m
  unfolding find_deps
  find_deps_same count spec zero di m = refl
  find_deps_same count spec (suc n) di m =
      rw (find_dep_same (dep_name spec di) count 0 m)
        (find_deps_same count spec n (di + 1) (find_dep xs (dep_name spec di) count 0 m))

abbrev with_mask : List ServiceSpec → ℕ → ServiceSpec → ServiceSpec
with_mask specs count spec = record spec { dep_mask = mask_of specs count spec }

set-SameNames :
    (specs : List ServiceSpec) (count i : ℕ)
    → i < length specs
    → SameNames specs (set specs i (with_mask specs count (spec_at specs i)))
unfolding SameNames
set-SameNames specs count i lt k = elim (Bool-cases (i == k)) [
  | inl same ↦
      let e : i ≡ k = ground (arith, same) in
      subst
        (λ j.
          name_bytes (spec_at (set specs i (with_mask specs count (spec_at specs i))) j)
          ≡ name_bytes (spec_at specs j))
        e
        (ap name_bytes
          (get_or-set_self specs i (with_mask specs count (spec_at specs i)) empty_spec lt))
  | inr other ↦ ap name_bytes (
      get_or-set_ne specs i k (with_mask specs count (spec_at specs i)) empty_spec
        (ground (arith, other)))
]

-- Each specification in the range of the loop gets its mask, and no other changes.
resolve_from-spec_at :
    (count n i : ℕ) (specs : List ServiceSpec) (k : ℕ)
    → i + n ≤ length specs
    → spec_at (resolve_from count n i specs) k ≡ (
        if leb i k && ltb k (i + n)
        then with_mask specs count (spec_at specs k)
        else spec_at specs k)
unfolding resolve_from
resolve_from-spec_at count zero i specs k room = ground arith
resolve_from-spec_at count (suc n) i specs k room =
    let here = with_mask specs count (spec_at specs i) in
    let next = set specs i here in
    let rest =
      resolve_from-spec_at count n (i + 1) next k (omega (arith, room, length-set specs i here)) in
    let names = set-SameNames specs count i (omega arith) in
    elim (Bool-cases (i == k)) [
      | inl same ↦
          let e : i ≡ k = ground (arith, same) in
          let out : (leb (i + 1) k && ltb k (i + 1 + n)) ≡ false = ground (arith, e) in
          let at : (leb i k && ltb k (i + suc n)) ≡ true = ground (arith, e) in
          rest
          ∙ rw (out, at)
              (subst (λ j. spec_at next j ≡ with_mask specs count (spec_at specs j)) e
                (get_or-set_self specs i here empty_spec (omega arith)))
      | inr other ↦
          let apart : spec_at next k ≡ spec_at specs k =
            get_or-set_ne specs i k here empty_spec (ground (arith, other)) in
          let range : (leb (i + 1) k && ltb k (i + 1 + n)) ≡ (leb i k && ltb k (i + suc n)) =
            ground (arith, other) in
          let mask : mask_of next count (spec_at specs k) ≡ mask_of specs count (spec_at specs k) =
            find_deps_same specs next names count (spec_at specs k) (spec_at specs k).dep_count 0
              (replicate 32 false) in
          rest ∙ rw (range, apart, mask) refl
    ]

pub resolve_dep_mask-spec_at :
    (specs : List ServiceSpec) (count k : ℕ)
    → count ≤ length specs
    → spec_at (resolve_dep_mask specs count) k
      ≡ (if ltb k count then with_mask specs count (spec_at specs k) else spec_at specs k)
resolve_dep_mask-spec_at specs count k room =
    let range : (leb 0 k && ltb k (0 + count)) ≡ ltb k count = ground arith in
    resolve_from-spec_at count count 0 specs k (omega (arith, room)) ∙ rw range refl

resolve_dep_mask-SameNames :
    (specs : List ServiceSpec) (count : ℕ)
    → count ≤ length specs
    → SameNames specs (resolve_dep_mask specs count)
unfolding SameNames
resolve_dep_mask-SameNames specs count room k = elim (Bool-cases (ltb k count)) [
  | inl inside ↦ rw (resolve_dep_mask-spec_at specs count k room, inside) refl
  | inr past ↦ rw (resolve_dep_mask-spec_at specs count k room, past) refl
]

-- In at most 32 services that fit the array, `resolve_dep_mask` sets bit `j` of the mask of service
-- `i` exactly if a dependency of `i` has the name of service `j` and of no service before `j`; a
-- name that no service has sets no bit.
pub resolve_dep_mask_iff :
    (specs : List ServiceSpec) (count i j : ℕ)
    → count ≤ length specs
    → count ≤ 32
    → i < count
    → let ys = resolve_dep_mask specs count in
      (bit (spec_at ys i).dep_mask j ≡ true)
      ↔ DependsOn ys count (spec_at ys i) 0 (spec_at ys i).dep_count j
unfolding find_deps
resolve_dep_mask_iff specs count i j room small lt =
    let inside : ltb i count ≡ true = ground (arith, lt) in
    let ys = resolve_dep_mask specs count in
    let spec = spec_at specs i in
    let same : mask_of ys count spec ≡ mask_of specs count spec =
      find_deps_same specs ys (resolve_dep_mask-SameNames specs count room) count spec
        spec.dep_count 0 (replicate 32 false) in
    let at : spec_at ys i ≡ with_mask specs count spec =
      resolve_dep_mask-spec_at specs count i room ∙ rw inside refl in
    subst (λ z. (bit z.dep_mask j ≡ true) ↔ DependsOn ys count z 0 z.dep_count j) (sym at)
      (subst
        (λ m. (bit m j ≡ true) ↔ DependsOn ys count (with_mask specs count spec) 0 spec.dep_count j)
        same (mask_of-bit ys count (with_mask specs count spec) j small))
