-- ===== src/Fs/Service/ReadAll.antt =====
-- `read_file_all` on a volume that has room and whose transfers do not fail.
use mene_os.Base.{
  ℕ, zero, suc, ◌+◌, ◌-◌, ◌%◌, ◌≡◌, ◌≤◌, ◌<◌, refl, sym, ◌∙◌, ap, min, List, [], ◌∷◌, ◌++◌, Option,
  some, arith, length, take, drop, inl, inr, length-take, length-drop, Bool-cases, leb, ◌⊎◌,
}
use mene_os.Abi.Blk.{max_io_bytes}
use mene_os.Fs.FatFs.{FatFs, State, View, Same, IsOpen, IsVolume, chunk}
use mene_os.Fs.Requests.{normalize_path}
use mene_os.Fs.Service.{read_loop, read_more, read_front, read_sized, read_opened, read_file_all}
use mene_os.Fs.Service.Files.{Option-cases, Same-trans}

append_nil : (xs : List ℕ) → xs ++ [] ≡ xs
append_nil [] = refl
append_nil (x ∷ xs) = ap (◌∷◌ x) (append_nil xs)

append_assoc : (xs ys zs : List ℕ) → (xs ++ ys) ++ zs ≡ xs ++ (ys ++ zs)
append_assoc [] ys zs = refl
append_assoc (x ∷ xs) ys zs = ap (◌∷◌ x) (append_assoc xs ys zs)

drop_all : (k : ℕ) (xs : List ℕ) → length xs ≤ k → drop k xs ≡ []
drop_all zero [] h = refl
drop_all zero (x ∷ xs) h = absurd (omega (arith, h))
drop_all (suc k) [] h = refl
drop_all (suc k) (x ∷ xs) h = drop_all k xs (omega (arith, h))

take_then_drop : (n : ℕ) (xs : List ℕ) → take n xs ++ drop (length (take n xs)) xs ≡ xs
take_then_drop zero xs = refl
take_then_drop (suc n) [] = refl
take_then_drop (suc n) (x ∷ xs) = ap (◌∷◌ x) (take_then_drop n xs)

drop_nil : (n : ℕ) → drop {A = ℕ} n [] ≡ []
drop_nil zero = refl
drop_nil (suc n) = refl

drop-drop : (k m : ℕ) (xs : List ℕ) → drop (k + m) xs ≡ drop m (drop k xs)
drop-drop zero m xs = ap (λ n. drop n xs) (omega arith)
drop-drop (suc k) m [] = drop_nil (suc k + m) ∙ sym (drop_nil m)
drop-drop (suc k) m (x ∷ xs) =
    let e : suc k + m ≡ suc (k + m) = omega arith in ap (λ n. drop n (x ∷ xs)) e ∙ drop-drop k m xs

module _ (fat : FatFs) (view : View fat) (v : IsVolume fat view) where
  -- A read that is not at the end moves the cursor.
  chunk_progress :
      (k : ℕ) (bytes : List ℕ) → k < length bytes → 0 < length (chunk fat view max_io_bytes k bytes)
  chunk_progress k bytes h =
      let n = min max_io_bytes (view.cluster - k % view.cluster) in
      omega (arith, v.big, h, length-take n (drop k bytes), length-drop k bytes)

  chunk_short :
      (k : ℕ) (bytes : List ℕ) → length (chunk fat view max_io_bytes k bytes) ≤ length bytes - k
  chunk_short k bytes =
      let n = min max_io_bytes (view.cluster - k % view.cluster) in
      omega (arith, length-take n (drop k bytes), length-drop k bytes)

  chunk-append :
      (k : ℕ) (bytes : List ℕ)
      → let c = chunk fat view max_io_bytes k bytes in c ++ drop (k + length c) bytes ≡ drop k bytes
  chunk-append k bytes =
      let n = min max_io_bytes (view.cluster - k % view.cluster) in
      ap (◌++◌ (chunk fat view max_io_bytes k bytes))
        (drop-drop k (length (chunk fat view max_io_bytes k bytes)) bytes)
      ∙ take_then_drop n (drop k bytes)

  -- A read that returns nothing is at the end.
  at_end : (k : ℕ) (bytes : List ℕ) → chunk fat view max_io_bytes k bytes ≡ [] → length bytes ≤ k
  at_end k bytes empty = elim (Bool-cases (leb (length bytes) k)) [
    | inl past ↦ ground (arith, past)
    | inr before ↦
        let none_left : length (chunk fat view max_io_bytes k bytes) ≡ 0 = ap length empty in
        absurd (omega (arith, none_left, chunk_progress k bytes (ground (arith, before))))
  ]

  List-cases : (xs : List ℕ) → (xs ≡ []) ⊎ ((b : ℕ) × (bs : List ℕ) × (xs ≡ b ∷ bs))
  List-cases [] = inl refl
  List-cases (b ∷ bs) = inr (b, bs, refl)

  read_loop_lem :
      (fuel : ℕ) (out : List ℕ) (f : fat.File) (p bytes : List ℕ) (k : ℕ) (s : State fat)
      → IsOpen fat view f p k
      → view.content s.0 p ≡ some bytes
      → length bytes - k < fuel
      → (t : State fat) × (read_loop fat fuel out f s ≡ (some (out ++ drop k bytes), t))
        × Same fat view s t
  unfolding read_loop
  read_loop_lem zero out f p bytes k s o h enough = absurd (omega (arith, enough))
  read_loop_lem (suc fuel) out f p bytes k s o h enough =
      let (g, t, e, o1, same) = v.reads f p bytes max_io_bytes k s o h in
      let c = chunk fat view max_io_bytes k bytes in
      let next : List ℕ → fat.File → State fat → Option (List ℕ) × State fat =
        λ more g t. read_loop fat fuel more g t in
      elim (List-cases c) [
        | inl empty ↦
            let past : length bytes ≤ k = at_end k bytes empty in
            (
              fat.close g t,
              ap (read_more fat next out) (e ∙ ap (λ x. (some x, g, t)) empty)
                  ∙ ap (λ x. (some x, fat.close g t))
                      (sym (append_nil out) ∙ ap (◌++◌ out) (sym (drop_all k bytes past))),
              Same-trans fat view v s t (fat.close g t) same (v.closes g t),
            )
        | inr (b, bs, some_bytes) ↦
            let short = chunk_short k bytes in
            let moved : 0 < length c = rw some_bytes (omega arith) in
            let (u, rest, same') =
              read_loop_lem fuel (out ++ c) g p bytes (k + length c) t o1 (same p ∙ h)
                (omega (arith, short, moved, enough)) in
            (
              u,
              ap (read_more fat next out) (e ∙ ap (λ x. (some x, g, t)) some_bytes)
                  ∙ ap (λ x. next (out ++ x) g t) (sym some_bytes)
                  ∙ rest
                  ∙ ap (λ x. (some x, u))
                      (append_assoc out c (drop (k + length c) bytes)
                        ∙ ap (◌++◌ out) (chunk-append k bytes)),
              Same-trans fat view v s t u same same',
            )
      ]

  -- On a volume that has room and whose transfers do not fail, the loop of `read_file_all` ends and
  -- returns exactly the bytes of the file, however long it is and wherever its clusters end, or
  -- `None` if there is no such file; no file changes.
  pub read_file_all_lem :
      (path : List ℕ) (s : State fat)
      → (t : State fat) × (read_file_all fat path s ≡ (view.content s.0 (normalize_path path), t))
        × Same fat view s t
  unfolding read_file_all
  read_file_all_lem path s =
      let p = normalize_path path in
      elim (Option-cases (view.content s.0 p)) [
        | inl gone ↦
            let (t, e, same) = v.misses p s gone in
            (t, ap (read_opened fat) e ∙ ap (λ x. (x, t)) (sym gone), same)
        | inr (bytes, h) ↦
            let (f, t, e, o, same) = v.opens p bytes s h in
            let (f1, t1, e1, o1, same1) = v.winds f p bytes 0 t o (same p ∙ h) in
            let kept = Same-trans fat view v s t t1 same same1 in
            let (f2, t2, e2, o2, same2) = v.rewinds f1 p (length bytes) t1 o1 in
            let kept2 = Same-trans fat view v s t1 t2 kept same2 in
            let (u, rest, same3) =
              read_loop_lem (length bytes + 1) [] f2 p bytes 0 t2 o2 (kept2 p ∙ h) (omega arith) in
            (
              u,
              ap (read_opened fat) e
                  ∙ ap (read_sized fat) e1
                  ∙ ap (read_front fat (length bytes)) e2
                  ∙ rest
                  ∙ ap (λ x. (x, u)) (sym h),
              Same-trans fat view v s t2 u kept2 same3,
            )
      ]
