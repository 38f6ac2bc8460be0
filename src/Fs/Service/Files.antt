-- ===== src/Fs/Service/Files.antt =====
-- On a volume that has room and whose transfers do not fail, the service is a map from paths to
-- bytes.
use mene_os.Base.{
  ℕ, ◌-◌, ◌%◌, ◌≡◌, ◌≤◌, refl, sym, subst, ◌∙◌, ap, min, Bool, true, false, List, [], Option, none,
  some, arith, length, take, ◌==◌, if◌then◌else◌, Bool-cases, inl, inr, ◌⊎◌,
}
use mene_os.Abi.Fs
use mene_os.Fs.FatFs.{FatFs, State, View, Same, Becomes, IsOpen, IsVolume, chunk}
use mene_os.Fs.Requests.{normalize_path}
use mene_os.Fs.Disk.{start}
use mene_os.Fs.Service.{
  ok, eio, enoent, Answer, answer_write, answer_read, answer_delete, or_create, write_opened,
  stored, write_front, write_cut, flush_written, reply_opened, reply_front, reply_bytes,
  reply_removed,
}

pub Option-cases : {A : Type 0} (o : Option A) → (o ≡ none) ⊎ ((a : A) × (o ≡ some a))
Option-cases none = inl refl
Option-cases (some a) = inr (a, refl)

-- What the read arm replies for a file with these bytes, or for none.
abbrev pub read_reply : Option (List ℕ) → List ℕ
read_reply none = enoent
read_reply (some bytes) =
    if length (take Fs.max_data bytes) == 0 then enoent else take Fs.max_data bytes

-- A file that can be opened or created.
abbrev pub writable : (List ℕ → Bool) → List ℕ → Option (List ℕ) → Bool
writable is_legal p none = is_legal p
writable is_legal p (some old) = true

abbrev pub delete_reply : Option (List ℕ) → List ℕ
delete_reply none = enoent
delete_reply (some bytes) = ok

module _ (fat : FatFs) (view : View fat) (v : IsVolume fat view) where
  pub Same-trans : (s t u : State fat) → Same fat view s t → Same fat view t u → Same fat view s u
  Same-trans s t u a b q = b q ∙ a q

  Becomes-Same :
      (p : List ℕ) (x : Option (List ℕ)) (s t u : State fat)
      → Becomes fat view p x s t
      → Same fat view t u
      → Becomes fat view p x s u
  Becomes-Same p x s t u a b q plain = b q ∙ a q plain

  Same-Becomes :
      (p : List ℕ) (x : Option (List ℕ)) (s t u : State fat)
      → Same fat view s t
      → Becomes fat view p x t u
      → Becomes fat view p x s u
  Same-Becomes p x s t u a b q plain = rw (b q plain, a q) refl

  Becomes-Becomes :
      (p : List ℕ) (x y : Option (List ℕ)) (s t u : State fat)
      → Becomes fat view p x s t
      → Becomes fat view p y t u
      → Becomes fat view p y s u
  Becomes-Becomes p x y s t u a b q plain = elim (Bool-cases (view.same_file q p)) [
    | inl same ↦ b q plain ∙ rw same refl
    | inr other ↦ rw (b q plain, a q plain, other) refl
  ]

  Becomes-at :
      (p : List ℕ) (x : Option (List ℕ)) (s t : State fat)
      → view.is_plain p ≡ true
      → Becomes fat view p x s t
      → view.content t.0 p ≡ x
  Becomes-at p x s t plain a = a p plain ∙ rw (v.reflexive p) refl

  -- A file that there is not becomes none by staying as it is.
  Same-Becomes-none :
      (p : List ℕ) (s t : State fat)
      → view.content s.0 p ≡ none
      → Same fat view s t
      → Becomes fat view p none s t
  Same-Becomes-none p s t h a q plain = elim (Bool-cases (view.same_file q p)) [
    | inl same ↦ rw same (a q ∙ v.shared q p s.0 same ∙ h)
    | inr other ↦ rw other (a q)
  ]

  chunk_front : (bytes : List ℕ) → chunk fat view Fs.max_data 0 bytes ≡ take Fs.max_data bytes
  chunk_front bytes =
      let e : min 512 (view.cluster - 0 % view.cluster) ≡ 512 = omega (arith, v.big) in rw e refl

  pub answer_read_lem :
      (path : List ℕ) (s : State fat)
      → ((answer_read fat path s).0 ≡ read_reply (view.content s.0 (normalize_path path)))
        × Same fat view s (answer_read fat path s).2
  unfolding answer_read
  answer_read_lem path s =
      let p = normalize_path path in
      elim (Option-cases (view.content s.0 p)) [
        | inl gone ↦
            let (t, e, same) = v.misses p s gone in
            let run : answer_read fat path s ≡ (enoent, none, t) = ap (reply_opened fat) e in
            rw (run, gone) (refl, same)
        | inr (bytes, h) ↦
            let (f, t, e, o, same) = v.opens p bytes s h in
            let (f1, t1, e1, o1, same1) = v.rewinds f p 0 t o in
            let kept = Same-trans s t t1 same same1 in
            let here : view.content t1.0 p ≡ some bytes = kept p ∙ h in
            let (f2, t2, e2, o2, same2) = v.reads f1 p bytes Fs.max_data 0 t1 o1 here in
            let run : answer_read fat path s ≡ (read_reply (some bytes), some f2, t2) =
              ap (reply_opened fat) e
              ∙ ap (reply_front fat) e1
              ∙ ap (reply_bytes fat) e2
              ∙ rw (chunk_front bytes) refl in
            rw (run, h) (refl, Same-trans s t1 t2 kept same2)
      ]

  -- The four calls on a file that is there leave exactly the bytes in it.
  write_front_lem :
      (p old bytes : List ℕ) (f : fat.File) (s : State fat)
      → view.is_plain p ≡ true
      → IsOpen fat view f p 0
      → view.content s.0 p ≡ some old
      → length bytes ≤ 512
      → (g : fat.File) × (t : State fat) × (write_front fat bytes (fat.seek (start 0) f s)
          ≡ (true, g, t))
        × Becomes fat view p (some bytes) s t
  write_front_lem p old bytes f s plain o h fits =
      let (f1, t1, e1, o1, same1) = v.rewinds f p 0 s o in
      let (f2, t2, e2, o2, cut) = v.truncates f1 p old t1 plain o1 (same1 p ∙ h) in
      let (f3, t3, e3, put) =
        v.writes f2 p bytes t2 plain o2 (Becomes-at p (some []) t1 t2 plain cut)
          (omega (arith, v.big, fits)) in
      let (f4, t4, e4, same4) = v.flushes f3 t3 in
      let whole =
        Becomes-Becomes p (some []) (some bytes) s t2 t3
          (Same-Becomes p (some []) s t1 t2 same1 cut) put in
      (
        f4,
        t4,
        ap (write_front fat bytes) e1
            ∙ ap (write_cut fat bytes) e2
            ∙ ap (flush_written fat) e3
            ∙ e4,
        Becomes-Same p (some bytes) s t3 t4 whole same4,
      )

  pub answer_write_lem :
      (path bytes : List ℕ) (s : State fat)
      → view.is_plain (normalize_path path) ≡ true
      → length bytes ≤ 512
      → let p = normalize_path path in
        let done = writable view.is_legal p (view.content s.0 p) in
        ((done ≡ true)
          × ((answer_write fat path bytes s).0 ≡ ok)
          × Becomes fat view p (some bytes) s (answer_write fat path bytes s).2)
        ⊎ ((done ≡ false)
            × ((answer_write fat path bytes s).0 ≡ eio)
            × Same fat view s (answer_write fat path bytes s).2)
  unfolding answer_write
  answer_write_lem path bytes s plain fits =
      let p = normalize_path path in
      elim (Option-cases (view.content s.0 p)) [
        | inr (old, h) ↦
            let (f, t, e, o, same) = v.opens p old s h in
            let (g, u, e', becomes) = write_front_lem p old bytes f t plain o (same p ∙ h) fits in
            let run : answer_write fat path bytes s ≡ (ok, some g, u) =
              ap (λ x. write_opened fat bytes (or_create fat p x)) e ∙ ap (stored fat) e' in
            rw (run, h) (inl (refl, refl, Same-Becomes p (some bytes) s t u same becomes))
        | inl gone ↦
            let (t, e, same) = v.misses p s gone in
            let opened = ap (λ x. write_opened fat bytes (or_create fat p x)) e in
            elim (Bool-cases (view.is_legal p)) [
              | inr illegal ↦
                  let (u, e', same') = v.rejects p t illegal (same p ∙ gone) in
                  let run : answer_write fat path bytes s ≡ (eio, none, u) =
                    opened ∙ ap (write_opened fat bytes) e' in
                  rw (run, gone) (inr (illegal, refl, Same-trans s t u same same'))
              | inl legal ↦
                  let (f, u, e', o, made) = v.creates p t plain legal (same p ∙ gone) in
                  let (g, w, e2, becomes) =
                    write_front_lem p [] bytes f u plain o (Becomes-at p (some []) t u plain made)
                      fits in
                  let run : answer_write fat path bytes s ≡ (ok, some g, w) =
                    opened ∙ ap (write_opened fat bytes) e' ∙ ap (stored fat) e2 in
                  rw (run, gone)
                    (inl (
                      legal,
                      refl,
                      Becomes-Becomes p (some []) (some bytes) s u w
                          (Same-Becomes p (some []) s t u same made) becomes,
                    ))
            ]
      ]

  abbrev Deleted : List ℕ → State fat → Answer fat → Type 0
  Deleted p s a = (a.0 ≡ delete_reply (view.content s.0 p)) × Becomes fat view p none s a.2

  pub answer_delete_lem :
      (path : List ℕ) (s : State fat)
      → view.is_plain (normalize_path path) ≡ true
      → let p = normalize_path path in
        ((answer_delete fat path s).0 ≡ delete_reply (view.content s.0 p))
        × Becomes fat view p none s (answer_delete fat path s).2
  unfolding answer_delete
  answer_delete_lem path s plain =
      let p = normalize_path path in
      elim (Option-cases (view.content s.0 p)) [
        | inl gone ↦
            let (t, e, same) = v.keeps p s plain gone in
            let run : answer_delete fat path s ≡ (enoent, none, t) = ap (reply_removed fat) e in
            subst (Deleted p s) (sym run)
              (ap delete_reply (sym gone), Same-Becomes-none p s t gone same)
        | inr (bytes, h) ↦
            let (t, e, becomes) = v.removes p bytes s plain h in
            let run : answer_delete fat path s ≡ (ok, none, t) = ap (reply_removed fat) e in
            subst (Deleted p s) (sym run) (ap delete_reply (sym h), becomes)
      ]
