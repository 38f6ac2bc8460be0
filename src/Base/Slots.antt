-- ===== src/Base/Slots.antt =====
-- Arrays of slots that are searched from the front: `iter().find(..)`, and the loop
-- `for s in iter_mut() { if p(s) { change s; return } }`.
use Prim.Native.Nat.{ℕ, ◌+◌, ◌≤◌}
use mathlib.Core.Path.{◌≡◌, refl}
use mathlib.Core.Bool.{Bool}
use mathlib.Core.Logic.{inl, inr}
use mathlib.Core.Option.{Option, none, some}
use mathlib.Core.List.{List, [], ◌∷◌}
use native.Mathlib.Omega.{arith}
use mene_os.Base.Tests.{if◌then◌else◌, Option-cases}
use mene_os.Base.Lists.{length}

module _ {ℓ} {A : Type ℓ} where
  unfoldable pub find_first : (A → Bool) → List A → Option A
  find_first p [] = none
  find_first p (x ∷ xs) = if p x then some x else find_first p xs

  abbrev pub cons_option : A → Option (List A) → Option (List A)
  cons_option x none = none
  cons_option x (some xs) = some (x ∷ xs)

  -- `none` when no slot passes the test.
  unfoldable pub update_first : (A → Bool) → (A → A) → List A → Option (List A)
  update_first p f [] = none
  update_first p f (x ∷ xs) = if p x then some (f x ∷ xs) else cons_option x (update_first p f xs)

  unfoldable pub count_if : (A → Bool) → List A → ℕ
  count_if p [] = 0
  count_if p (x ∷ xs) = (if p x then 1 else 0) + count_if p xs

  -- The two loops of a `register`: change the slot that has the name, or else take a free one.
  unfoldable pub update_or_claim :
      (A → Bool) → (A → A) → (A → Bool) → (A → A) → List A → Option (List A)
  update_or_claim p f q g xs = elim (update_first p f xs) [
    | some ys ↦ some ys
    | none ↦ update_first q g xs
  ]

  pub find_first-none_of_update :
      (p : A → Bool) (f : A → A) (xs : List A) → update_first p f xs ≡ none → find_first p xs ≡ none
  unfolding update_first find_first
  find_first-none_of_update p f [] h = refl
  find_first-none_of_update p f (x ∷ xs) h = ground (arith, find_first-none_of_update p f xs)

  pub update_first-none_of_find :
      (p : A → Bool) (f : A → A) (xs : List A) → find_first p xs ≡ none → update_first p f xs ≡ none
  unfolding update_first find_first
  update_first-none_of_find p f [] h = refl
  update_first-none_of_find p f (x ∷ xs) h = ground (arith, update_first-none_of_find p f xs)

  pub length-update_first :
      (p : A → Bool) (f : A → A) (xs : List A) {ys : List A}
      → update_first p f xs ≡ some ys
      → length ys ≡ length xs
  unfolding update_first
  length-update_first p f [] h = cc
  length-update_first p f (x ∷ xs) h = elim (Option-cases (update_first p f xs)) [
    | inl e ↦ ground (arith, e)
    | inr (zs, e) ↦ ground (arith, e, length-update_first p f xs e)
  ]

  pub count_if-zero_of_find :
      (p : A → Bool) (xs : List A) → find_first p xs ≡ none → count_if p xs ≡ 0
  unfolding find_first count_if
  count_if-zero_of_find p [] h = refl
  count_if-zero_of_find p (x ∷ xs) h = ground (arith, count_if-zero_of_find p xs)

  pub find_first-zero_of_count :
      (p : A → Bool) (xs : List A) → count_if p xs ≡ 0 → find_first p xs ≡ none
  unfolding find_first count_if
  find_first-zero_of_count p [] h = refl
  find_first-zero_of_count p (x ∷ xs) h = ground (arith, find_first-zero_of_count p xs)

  pub count_if-le-length : (p : A → Bool) (xs : List A) → count_if p xs ≤ length xs
  unfolding count_if
  count_if-le-length p [] = omega arith
  count_if-le-length p (x ∷ xs) = ground (arith, count_if-le-length p xs)

module _ {ℓ} {A : Type ℓ} (p q : A → Bool) (f g : A → A) (xs : List A) where
  pub update_or_claim_hit :
      (ys : List A) → update_first p f xs ≡ some ys → update_or_claim p f q g xs ≡ some ys
  unfolding update_or_claim
  update_or_claim_hit ys h = ground arith

  pub update_or_claim_miss :
      update_first p f xs ≡ none → update_or_claim p f q g xs ≡ update_first q g xs
  unfolding update_or_claim
  update_or_claim_miss h = ground arith
