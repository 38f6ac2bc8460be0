-- ===== src/Base/BTreeMap.antt =====
-- `BTreeMap<usize, V>`: the entries in the order of their keys, which is the order of iteration.
use Prim.Native.Nat.{ℕ, ◌+◌, ◌<◌}
use mathlib.Core.Path.{◌≡◌, refl}
use mathlib.Core.Option.{Option, none, some}
use mathlib.Core.List.{List, [], ◌∷◌}
use native.Mathlib.Omega.{arith}
use mene_os.Base.Tests.{ltb, ◌==◌, if◌then◌else◌}

abbrev pub Map {ℓ} : Type ℓ → Type ℓ
Map V = List (ℕ × V)

module _ {ℓ} {V : Type ℓ} where
  unfoldable pub get : ℕ → Map V → Option V
  get k [] = none
  get k ((j, v) ∷ m) = if j == k then some v else get k m

  unfoldable pub insert : ℕ → V → Map V → Map V
  insert k v [] = (k, v) ∷ []
  insert k v ((j, w) ∷ m) =
      if j == k then (k, v) ∷ m else if ltb k j then (k, v) ∷ (j, w) ∷ m else (j, w) ∷ insert k v m

  unfoldable pub remove : ℕ → Map V → Map V
  remove k [] = []
  remove k ((j, v) ∷ m) = let rest = remove k m in if j == k then rest else (j, v) ∷ rest

  -- `if let Some(v) = map.get_mut(&k) { *v = f(v) }`
  unfoldable pub modify : ℕ → (V → V) → Map V → Map V
  modify k f [] = []
  modify k f ((j, v) ∷ m) = (if j == k then (j, f v) else (j, v)) ∷ modify k f m

  pub get-insert :
      (k j : ℕ) (v : V) (m : Map V) → get j (insert k v m) ≡ (if k == j then some v else get j m)
  unfolding get insert
  get-insert k j v [] = refl
  get-insert k j v ((i, w) ∷ m) = ground (arith, get-insert k j v m)

  pub get-remove : (k j : ℕ) (m : Map V) → get j (remove k m) ≡ (if k == j then none else get j m)
  unfolding get remove
  get-remove k j [] = ground arith
  get-remove k j ((i, w) ∷ m) = ground (arith, get-remove k j m)

  abbrev pub map_option : (V → V) → Option V → Option V
  map_option f none = none
  map_option f (some v) = some (f v)

  pub get-modify :
      (k j : ℕ) (f : V → V) (m : Map V)
      → get j (modify k f m) ≡ (if k == j then map_option f (get j m) else get j m)
  unfolding get modify
  get-modify k j f [] = ground arith
  get-modify k j f ((i, w) ∷ m) = ground (arith, get-modify k j f m)

  -- The keys grow along the list, all above `lo`.
  abbrev pub IsAbove : ℕ → Map V → Type ℓ
  IsAbove lo [] = Unit
  IsAbove lo ((j, v) ∷ m) = (lo < j + 1) × IsAbove (j + 1) m
