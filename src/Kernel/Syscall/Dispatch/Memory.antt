-- ===== src/Kernel/Syscall/Dispatch/Memory.antt =====
-- What is read from the memory of a process after a write.
use mene_os.Base.{
  ℕ, zero, suc, ◌+◌, ◌≡◌, ◌≤◌, ◌<◌, ◌⊎◌, inl, inr, refl, ◌∙◌, ap₂, ap, List, [], ◌∷◌, ◌++◌, arith,
  length, to_le, from_le, from_le-to_le, ◌^◌,
}
use mene_os.Kernel.Syscall.Dispatch.{Memory, load, store, set_byte, word, store_word}

pub store-outside :
    (q : ℕ) (bs : List ℕ) (mem : Memory) (a : ℕ)
    → (a < q) ⊎ (q + length bs ≤ a)
    → store q bs mem a ≡ mem a
unfolding store
store-outside q [] mem a h = refl
store-outside q (b ∷ bs) mem a h = store-outside (q + 1) bs (set_byte q b mem) a (away h) ∙ same h
  where
    away : (a < q) ⊎ (q + suc (length bs) ≤ a) → (a < q + 1) ⊎ (q + 1 + length bs ≤ a)
    away (inl lt) = inl (omega (arith, lt))
    away (inr le) = inr (omega (arith, le))

    same : (a < q) ⊎ (q + suc (length bs) ≤ a) → set_byte q b mem a ≡ mem a
    same (inl lt) = ground (arith, lt)
    same (inr le) = ground (arith, le)

-- The bytes at the front of what was written.
pub load-store :
    (q : ℕ) (xs ys : List ℕ) (mem : Memory) → load (store q (xs ++ ys) mem) q (length xs) ≡ xs
unfolding load store
load-store q [] ys mem = refl
load-store q (x ∷ xs) ys mem =
    ap₂ ◌∷◌
      (store-outside (q + 1) (xs ++ ys) (set_byte q x mem) q (inl (omega arith)) ∙ ground arith)
      (load-store (q + 1) xs ys (set_byte q x mem))

-- A range that the write does not touch.
pub load-store_outside :
    (q : ℕ) (bs : List ℕ) (mem : Memory) (p n : ℕ)
    → (p + n ≤ q) ⊎ (q + length bs ≤ p)
    → load (store q bs mem) p n ≡ load mem p n
unfolding load
load-store_outside q bs mem p zero h = refl
load-store_outside q bs mem p (suc n) h =
    ap₂ ◌∷◌ (store-outside q bs mem p (here h)) (load-store_outside q bs mem (p + 1) n (next h))
  where
    here : (p + suc n ≤ q) ⊎ (q + length bs ≤ p) → (p < q) ⊎ (q + length bs ≤ p)
    here (inl le) = inl (omega (arith, le))
    here (inr le) = inr le

    next : (p + suc n ≤ q) ⊎ (q + length bs ≤ p) → (p + 1 + n ≤ q) ⊎ (q + length bs ≤ p + 1)
    next (inl le) = inl (omega (arith, le))
    next (inr le) = inr (omega (arith, le))

pub word-store_word :
    (p value : ℕ) (mem : Memory) → value < 2 ^ 64 → word (store_word p value mem) p ≡ value
unfolding to_le
word-store_word p value mem small =
    ap from_le (load-store p (to_le 8 value) [] mem) ∙ from_le-to_le 8 value small
