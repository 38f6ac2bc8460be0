-- ===== src/NameTable/Count.antt =====
-- How many slots are free, and how many hold a name, after a slot was renewed, taken or cleared.
use mene_os.Base.{ℕ, ◌≡◌, true, some, List, [], ◌∷◌, arith, ◌≤◌, ◌+◌}
use mene_os.Base.{if◌then◌else◌, bytes_eq, Option-cases, inl, inr}
use mene_os.Base.Slots.{update_first, count_if}
use mene_os.NameTable.{NameTable}

module _ {E : Type 0} (t : NameTable E) where
  pub count_renew :
      (n m : List ℕ) (pid h : ℕ) (es fs : List E)
      → update_first (t.matches n) (t.renew pid h) es ≡ some fs
      → (count_if (t.matches m) fs ≡ count_if (t.matches m) es)
        × (count_if t.is_free fs ≡ count_if t.is_free es)
  unfolding update_first count_if
  count_renew n m pid h [] fs u = cc
  count_renew n m pid h (e ∷ es) fs u =
      elim (Option-cases (update_first (t.matches n) (t.renew pid h) es)) [
        | inl v ↦ ground (arith, v, t.matches-renew m pid h e, t.is_free-renew pid h e)
        | inr (gs, v) ↦ ground (
          arith,
          v,
          count_renew n m pid h es gs v,
          t.matches-renew m pid h e,
          t.is_free-renew pid h e,
        )
      ]

  pub count_occupy :
      (n m : List ℕ) (pid h : ℕ) (es fs : List E)
      → update_first t.is_free (t.occupy n pid h) es ≡ some fs
      → (count_if (t.matches m) fs ≡ (if bytes_eq n m then 1 else 0) + count_if (t.matches m) es)
        × (count_if t.is_free fs + 1 ≡ count_if t.is_free es)
  unfolding update_first count_if
  count_occupy n m pid h [] fs u = cc
  count_occupy n m pid h (e ∷ es) fs u =
      elim (Option-cases (update_first t.is_free (t.occupy n pid h) es)) [
        | inl v ↦
            ground (
              arith,
              v,
              t.matches-occupy n m pid h e,
              t.is_free-occupy n pid h e,
              t.matches_free m e,
            )
        | inr (gs, v) ↦ ground (
          arith,
          v,
          count_occupy n m pid h es gs v,
          t.matches-occupy n m pid h e,
          t.is_free-occupy n pid h e,
          t.matches_free m e,
        )
      ]

  pub count_clear :
      (n m : List ℕ) (empty : E) (es fs : List E)
      → t.is_free empty ≡ true
      → update_first (t.matches n) (λ _. empty) es ≡ some fs
      → (count_if (t.matches m) fs ≤ count_if (t.matches m) es)
        × (count_if t.is_free fs ≡ count_if t.is_free es + 1)
  unfolding update_first count_if
  count_clear n m empty [] fs z u = cc
  count_clear n m empty (e ∷ es) fs z u =
      elim (Option-cases (update_first (t.matches n) (λ _. empty) es)) [
        | inl v ↦ ground (arith, v, z, t.matches_free m empty, t.matches_free n e)
        | inr (gs, v) ↦ ground (
          arith,
          v,
          z,
          count_clear n m empty es gs z v,
          t.matches_free m empty,
          t.matches_free n e,
        )
      ]
