-- ===== src/Init/BootGraph/Names.antt =====
-- `find_dep` of apps/init/src/main.rs, `resolve_dep_mask`: the first service with a name.
use mene_os.Base.{
  ℕ, zero, suc, ◌+◌, ◌≤◌, ◌<◌, ◌≡◌, ◌≢◌, ◌↔◌, ◌⊎◌, inl, inr, refl, sym, ◌∙◌, ap, Bool, true, false,
  ◌||◌, List, arith, length, get_or, bytes_eq, bytes_eq_iff, length-set, get_or-set_self,
  get_or-set_ne, ◌==◌, Bool-cases,
}
use mathlib.Core.Bool.{false≢true}
use mene_os.Base.Bits.{Mask, bit, set_bit}
use mene_os.Init.Services.{ServiceSpec, empty_spec, name_bytes}
use mene_os.Init.BootGraph.{find_dep}

abbrev pub spec_at : List ServiceSpec → ℕ → ServiceSpec
spec_at specs i = get_or specs i empty_spec

-- `j` is the first of the services whose name is `dname`, at `lo` or after it.
pub record IsFirst (specs : List ServiceSpec) (dname : List ℕ) (lo j : ℕ) : Type 0 where
  pub from : lo ≤ j
  pub named : name_bytes (spec_at specs j) ≡ dname
  pub first : (k : ℕ) → lo ≤ k → k < j → name_bytes (spec_at specs k) ≢ dname

bit-set_bit : (m : Mask) (i j : ℕ) → i < length m → bit (set_bit m i) j ≡ (i == j || bit m j)
bit-set_bit m i j h = elim (Bool-cases (i == j)) [
  | inl same ↦
      let e : i ≡ j = ground (arith, same) in
      rw (same, e) (get_or-set_self m j true false (rw (sym e) h))
  | inr other ↦ rw other (get_or-set_ne m i j true false (ground (arith, other)))
]

module _ (specs : List ServiceSpec) (dname : List ℕ) where
  abbrev has_name : ℕ → Bool
  has_name k = bytes_eq (name_bytes (spec_at specs k)) dname

  IsFirst-here : (lo : ℕ) → has_name lo ≡ true → IsFirst specs dname lo lo
  IsFirst-here lo hit = record {
    from = omega arith;
    named = (bytes_eq_iff (name_bytes (spec_at specs lo)) dname).0 hit;
    first = λ k a b. absurd (omega (arith, a, b));
  }

  misses : (k : ℕ) → has_name k ≡ false → name_bytes (spec_at specs k) ≢ dname
  misses k miss e = false≢true (sym miss ∙ (bytes_eq_iff (name_bytes (spec_at specs k)) dname).1 e)

  IsFirst-earlier :
      (lo j : ℕ) → has_name lo ≡ false → IsFirst specs dname (lo + 1) j → IsFirst specs dname lo j
  IsFirst-earlier lo j miss f = record {
    from = omega (arith, f.from);
    named = f.named;
    first = λ k a b. elim (Bool-cases (k == lo)) [
      | inl same ↦ let e : k ≡ lo = ground (arith, same) in rw e (misses lo miss)
      | inr other ↦ f.first k (ground (arith, other)) b
    ];
  }

  IsFirst-later :
      (lo j : ℕ) → has_name lo ≡ false → IsFirst specs dname lo j → IsFirst specs dname (lo + 1) j
  IsFirst-later lo j miss f = record {
    from = elim (Bool-cases (lo == j)) [
      | inl same ↦
          let e : lo ≡ j = ground (arith, same) in
          absurd (misses lo miss (ap (λ k. name_bytes (spec_at specs k)) e ∙ f.named))
      | inr other ↦ ground (arith, other, f.from)
    ];
    named = f.named;
    first = λ k a b. f.first k (omega (arith, a)) b;
  }

  IsFirst-only : (lo j : ℕ) → has_name lo ≡ true → IsFirst specs dname lo j → lo ≡ j
  IsFirst-only lo j hit f = elim (Bool-cases (lo == j)) [
    | inl same ↦ ground (arith, same)
    | inr other ↦ absurd (
        f.first lo (omega arith) (ground (arith, other, f.from))
          ((bytes_eq_iff (name_bytes (spec_at specs lo)) dname).0 hit))
  ]

  pub find_dep-bit :
      (n lo : ℕ) (m : Mask) (j : ℕ)
      → lo + n ≤ length m
      → (bit (find_dep specs dname n lo m) j ≡ true)
        ↔ ((bit m j ≡ true) ⊎ (IsFirst specs dname lo j × (j < lo + n)))
  unfolding find_dep
  find_dep-bit zero lo m j room =
      (λ h. inl h, λ h. elim h [ inl b ↦ b | inr (f, lt) ↦ absurd (omega (arith, f.from, lt)) ])
  find_dep-bit (suc n) lo m j room = elim (Bool-cases (has_name lo)) [
    | inl hit ↦
        rw (hit, bit-set_bit m lo j (omega arith))
          (
            λ h. elim (Bool-cases (lo == j)) [
              | inl same ↦
                  let e : lo ≡ j = ground (arith, same) in
                  inr (rw (sym e) (IsFirst-here lo hit), ground (arith, same))
              | inr other ↦ inl (ground (arith, h, other))
            ],
            λ h. elim h [
              | inl b ↦ ground (arith, b)
              | inr (f, lt) ↦ let e = IsFirst-only lo j hit f in ground (arith, e)
            ],
          )
    | inr miss ↦
        let (to, back) = find_dep-bit n (lo + 1) m j (omega arith) in
        rw miss (
          λ h. elim (to h) [
            | inl b ↦ inl b
            | inr (f, lt) ↦ inr (IsFirst-earlier lo j miss f, omega (arith, lt))
          ],
          λ h. elim h [
            | inl b ↦ back (inl b)
            | inr (f, lt) ↦ back (inr (IsFirst-later lo j miss f, omega (arith, lt)))
          ],
        )
  ]

  pub length-find_dep : (n lo : ℕ) (m : Mask) → length (find_dep specs dname n lo m) ≡ length m
  unfolding find_dep
  length-find_dep zero lo m = refl
  length-find_dep (suc n) lo m = elim (Bool-cases (has_name lo)) [
    | inl hit ↦ rw hit (length-set m lo true)
    | inr miss ↦ rw miss (length-find_dep n (lo + 1) m)
  ]
