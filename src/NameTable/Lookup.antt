-- ===== src/NameTable/Lookup.antt =====
-- What a lookup finds after a slot was renewed, taken or cleared.
use mene_os.Base.{ℕ, ◌≡◌, false, none, some, List, [], ◌∷◌, arith, ◌≤◌}
use mene_os.Base.{if◌then◌else◌, bytes_eq, bytes_eq_refl, bytes_eq→eq, Option-cases, inl, inr}
use mene_os.Base.Slots.{find_first, update_first, count_if, find_first-zero_of_count}
use mene_os.NameTable.{NameTable, binding}

module _ {E : Type 0} (t : NameTable E) where
  pub binding_renew :
      (n m : List ℕ) (pid h : ℕ) (es fs : List E)
      → update_first (t.matches n) (t.renew pid h) es ≡ some fs
      → binding t fs m ≡ (if bytes_eq n m then some h else binding t es m)
  unfolding binding find_first update_first
  binding_renew n m pid h [] fs u = cc
  binding_renew n m pid h (e ∷ es) fs u =
      elim (Option-cases (update_first (t.matches n) (t.renew pid h) es)) [
        | inl v ↦
            ground
              (arith, v, t.matches_same n m e, t.matches-renew m pid h e, t.handle_of-renew pid h e)
        | inr (gs, v) ↦ ground (
          arith,
          v,
          binding_renew n m pid h es gs v,
          t.matches_same n m e,
          t.matches_same m n e,
          t.matches-renew m pid h e,
          t.handle_of-renew pid h e,
          bytes_eq→eq n m,
          bytes_eq→eq m n,
          bytes_eq_refl n,
        )
      ]

  pub binding_occupy :
      (n m : List ℕ) (pid h : ℕ) (es fs : List E)
      → find_first (t.matches n) es ≡ none
      → update_first t.is_free (t.occupy n pid h) es ≡ some fs
      → binding t fs m ≡ (if bytes_eq n m then some h else binding t es m)
  unfolding binding find_first update_first
  binding_occupy n m pid h [] fs w u = cc
  binding_occupy n m pid h (e ∷ es) fs w u =
      elim (Option-cases (update_first t.is_free (t.occupy n pid h) es)) [
        | inl v ↦ ground (
          arith,
          v,
          t.matches-occupy n m pid h e,
          t.handle_of-occupy n pid h e,
          t.matches_free m e,
        )
        | inr (gs, v) ↦ ground (
          arith,
          v,
          binding_occupy n m pid h es gs,
          t.matches-occupy n m pid h e,
          t.handle_of-occupy n pid h e,
          t.matches_free m e,
          t.matches_same m n e,
          bytes_eq→eq n m,
          bytes_eq_refl n,
        )
      ]

  -- A cleared slot matches no name; the name must not stand in a second slot.
  pub binding_clear :
      (n m : List ℕ) (empty : E) (es fs : List E)
      → ((x : List ℕ) → t.matches x empty ≡ false)
      → count_if (t.matches n) es ≤ 1
      → update_first (t.matches n) (λ _. empty) es ≡ some fs
      → binding t fs m ≡ (if bytes_eq n m then none else binding t es m)
  unfolding binding find_first update_first count_if
  binding_clear n m empty [] fs z c u = cc
  binding_clear n m empty (e ∷ es) fs z c u =
      elim (Option-cases (update_first (t.matches n) (λ _. empty) es)) [
        | inl v ↦ ground (
          arith,
          v,
          z m,
          t.matches_same n m e,
          find_first-zero_of_count (t.matches n) es,
          bytes_eq→eq n m,
          bytes_eq_refl n,
        )
        | inr (gs, v) ↦ ground (
          arith,
          v,
          z m,
          binding_clear n m empty es gs z,
          t.matches_same n m e,
          t.matches_same m n e,
          find_first-zero_of_count (t.matches n) es,
          bytes_eq→eq n m,
          bytes_eq_refl n,
        )
      ]
