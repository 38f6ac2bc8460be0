-- ===== src/Fs/Service/Refinement.antt =====
-- The requests to write, read and delete a file, against a map from paths to bytes.
use mene_os.Base.{
  ℕ, ◌≡◌, ◌≤◌, refl, sym, ◌∙◌, ap, Bool, true, false, ◌||◌, List, Option, none, some, arith, length,
  ◌==◌, if◌then◌else◌, Bool-cases, inl, inr,
}
use mene_os.Abi.Fs
use mene_os.Abi.Handle.{Handle}
use mene_os.Fs.BlkCall.{Client}
use mene_os.Fs.FatFs.{FatFs, State, View, IsVolume}
use mene_os.Fs.Requests.{Request, path_arg, write_args, normalize_path}
use mene_os.Fs.Requests.Bounds.{short_data}
use mene_os.Fs.Service.{
  ok, einval, eio, Answer, answer_read, answer_delete, answer, on_path, on_write, drop_file, finish,
  reply, serve, ensure_fs, needs_fs,
}
use mene_os.Fs.Service.Files.{
  read_reply, writable, delete_reply, answer_read_lem, answer_write_lem, answer_delete_lem,
}

abbrev pub Files : Type 0
Files = List ℕ → Option (List ℕ)

module _ (fat : FatFs) (view : View fat) where
  abbrev pub put : List ℕ → Option (List ℕ) → Files → Files
  put p x m q = if view.same_file q p then x else m q

  -- The reply to a request, and the files after it.
  abbrev pub spec_write : Option (List ℕ × List ℕ) → Files → List ℕ × Files
  spec_write none m = (einval, m)
  spec_write (some (path, bytes)) m =
      let p = normalize_path path in
      if writable view.is_legal p (m p) then (ok, put p (some bytes) m) else (eio, m)

  abbrev pub spec_read : Option (List ℕ) → Files → List ℕ × Files
  spec_read none m = (einval, m)
  spec_read (some path) m = (read_reply (m (normalize_path path)), m)

  abbrev pub spec_delete : Option (List ℕ) → Files → List ℕ × Files
  spec_delete none m = (einval, m)
  spec_delete (some path) m = let p = normalize_path path in (delete_reply (m p), put p none m)

  unfoldable pub spec : Request → Files → List ℕ × Files
  spec r m =
      if r.opcode == Fs.req_write
      then spec_write (write_args r) m
      else if r.opcode == Fs.req_read
      then spec_read (path_arg r) m
      else spec_delete (path_arg r) m

  -- The volume holds the files of `m`, at plain paths.
  abbrev pub Holds : fat.Fs → Files → Type 0
  Holds fs m = (q : List ℕ) → view.is_plain q ≡ true → view.content fs q ≡ m q

  -- The reply is that of the specification, and so are the files after it.
  abbrev pub Meets : Answer fat → List ℕ × Files → Type 0
  Meets a b = (a.0 ≡ b.0) × Holds a.2.0 b.1

  -- The path of a request is plain, if there is one.
  abbrev pub names_plain : Option (List ℕ) → Bool
  names_plain none = true
  names_plain (some path) = view.is_plain (normalize_path path)

  abbrev pub writes_plain : Option (List ℕ × List ℕ) → Bool
  writes_plain none = true
  writes_plain (some (path, bytes)) = view.is_plain (normalize_path path)

  abbrev pub is_plain_request : Request → Bool
  is_plain_request r =
      if r.opcode == Fs.req_write then writes_plain (write_args r) else names_plain (path_arg r)

-- The opcodes of the requests to write, read and delete.
abbrev pub is_file_op : ℕ → Bool
is_file_op opcode = opcode == Fs.req_write || opcode == Fs.req_read || opcode == Fs.req_delete

module _ (fat : FatFs) (view : View fat) (v : IsVolume fat view) where
  on_write-Meets :
      (args : Option (List ℕ × List ℕ)) (s : State fat) (m : Files)
      → ((path bytes : List ℕ) → args ≡ some (path, bytes) → length bytes ≤ 512)
      → writes_plain fat view args ≡ true
      → Holds fat view s.0 m
      → Meets fat view (on_write fat args s) (spec_write fat view args m)
  on_write-Meets none s m short plain h = (refl, h)
  on_write-Meets (some (path, bytes)) s m short plain h =
      let p = normalize_path path in
      elim (answer_write_lem fat view v path bytes s plain (short path bytes refl)) [
        | inl (can, paid, becomes) ↦
            let can' : writable view.is_legal p (m p) ≡ true =
              ap (writable view.is_legal p) (sym (h p plain)) ∙ can in
            rw can' (paid, λ q at. becomes q at ∙ rw (h q at) refl)
        | inr (cannot, paid, same) ↦
            let cannot' : writable view.is_legal p (m p) ≡ false =
              ap (writable view.is_legal p) (sym (h p plain)) ∙ cannot in
            rw cannot' (paid, λ q at. same q ∙ h q at)
      ]

  on_read-Meets :
      (path : Option (List ℕ)) (s : State fat) (m : Files)
      → names_plain fat view path ≡ true
      → Holds fat view s.0 m
      → Meets fat view (on_path fat (answer_read fat) path s) (spec_read fat view path m)
  on_read-Meets none s m plain h = (refl, h)
  on_read-Meets (some path) s m plain h =
      let (paid, same) = answer_read_lem fat view v path s in
      (paid ∙ ap read_reply (h (normalize_path path) plain), λ q at. same q ∙ h q at)

  on_delete-Meets :
      (path : Option (List ℕ)) (s : State fat) (m : Files)
      → names_plain fat view path ≡ true
      → Holds fat view s.0 m
      → Meets fat view (on_path fat (answer_delete fat) path s) (spec_delete fat view path m)
  on_delete-Meets none s m plain h = (refl, h)
  on_delete-Meets (some path) s m plain h =
      let (paid, becomes) = answer_delete_lem fat view v path s plain in
      (
        paid ∙ ap delete_reply (h (normalize_path path) plain),
        λ q at. becomes q at ∙ rw (h q at) refl,
      )

  drop-Holds :
      (file : Option fat.File) (s : State fat) (m : Files)
      → Holds fat view s.0 m
      → Holds fat view (drop_file fat file s).0 m
  drop-Holds none s m h q plain = h q plain
  drop-Holds (some f) s m h q plain = v.closes f s q ∙ h q plain

  answer-Meets :
      (r : Request) (s : State fat) (m : Files)
      → is_file_op r.opcode ≡ true
      → is_plain_request fat view r ≡ true
      → Holds fat view s.0 m
      → Meets fat view (answer fat r s) (spec fat view r m)
  unfolding answer spec
  answer-Meets r s m op plain h = elim (Bool-cases (r.opcode == Fs.req_write)) [
    | inl write ↦ rw write (
        on_write-Meets (write_args r) s m (λ path bytes e. short_data r path bytes e)
          (ground (arith, plain, write)) h)
    | inr other ↦
        let named : names_plain fat view (path_arg r) ≡ true = ground (arith, plain, other) in
        elim (Bool-cases (r.opcode == Fs.req_read)) [
          | inl read ↦ rw (other, read) (on_read-Meets (path_arg r) s m named h)
          | inr neither ↦
              let delete : (r.opcode == Fs.req_delete) ≡ true =
                ground (arith, op, other, neither) in
              rw (other, neither, delete) (on_delete-Meets (path_arg r) s m named h)
        ]
  ]

  -- On a volume that has room and whose transfers do not fail, holding the files `m`: the arms of
  -- the match reply to a request to write, read or delete a plain path with what the specification says about
  -- `m`, and the mounted file system then holds the files that it says.
  pub serve-refines :
      (cap : Handle) (r : Request) (fs : fat.Fs) (c : Client) (m : Files)
      → is_file_op r.opcode ≡ true
      → is_plain_request fat view r ≡ true
      → Holds fat view fs m
      → (file : Option fat.File) × (t : State fat) × (fs' : fat.Fs) × (serve fat cap r
            (record { fs = some fs; client = c })
          ≡ finish fat cap r.req_id ((spec fat view r m).0, file, t))
        × ((serve fat cap r (record { fs = some fs; client = c })).fs ≡ some fs')
        × Holds fat view fs' (spec fat view r m).1
  unfolding serve ensure_fs
  serve-refines cap r fs c m op plain h =
      let needs : needs_fs fat r.opcode ≡ true = ground (arith, op) in
      let a = answer fat r (fs, c) in
      let (paid, holds) = answer-Meets r (fs, c) m op plain h in
      let dropped : Holds fat view (drop_file fat a.1 (a.2.0, reply cap r.req_id a.0 a.2.1)).0
          (spec fat view r m).1 =
        drop-Holds a.1 (a.2.0, reply cap r.req_id a.0 a.2.1) (spec fat view r m).1 holds in
      rw needs (
        a.1,
        a.2,
        (drop_file fat a.1 (a.2.0, reply cap r.req_id a.0 a.2.1)).0,
        ap (λ x. finish fat cap r.req_id (x, a.1, a.2)) paid,
        refl,
        dropped,
      )
