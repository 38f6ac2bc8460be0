-- ===== src/Base/Outcome.antt =====
-- `Result<A, E>`.
pub data Result {ℓ} (E A : Type ℓ) : Type ℓ where
  ok : A → Result E A
  err : E → Result E A

abbrev pub map_ok {ℓ} : {E A B : Type ℓ} → (A → B) → Result E A → Result E B
map_ok f (ok a) = ok (f a)
map_ok f (err e) = err e
