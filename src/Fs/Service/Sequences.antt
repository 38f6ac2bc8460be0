-- ===== src/Fs/Service/Sequences.antt =====
-- Any sequence of requests to write, read and delete files.
use mene_os.Base.{ℕ, ◌≡◌, sym, ap, subst, ◌&&◌, true, Bool, List, [], ◌∷◌, Option, some, arith}
use mene_os.Abi.Handle.{Handle}
use mene_os.Fs.FatFs.{FatFs, State, View, IsVolume}
use mene_os.Fs.Requests.{Request}
use mene_os.Fs.Service.{Server, serve, finish}
use mene_os.Fs.Service.Refinement.{Files, spec, Holds, is_file_op, is_plain_request, serve-refines}

abbrev pub all_file_ops : List (Handle × Request) → Bool
all_file_ops [] = true
all_file_ops ((cap, r) ∷ rs) = is_file_op r.opcode && all_file_ops rs

module _ (fat : FatFs) (view : View fat) where
  abbrev pub all_plain : List (Handle × Request) → Bool
  all_plain [] = true
  all_plain ((cap, r) ∷ rs) = is_plain_request fat view r && all_plain rs

  -- The rounds that serve the requests one after the other, from a server to a server, with the
  -- payload that each of them sends to the capability of its request.
  pub data Rounds : List (Handle × Request) → List (List ℕ) → Server fat → Server fat → Type 0 where
    done : (s : Server fat) → Rounds [] [] s s
    next :
        {cap : Handle} {r : Request} {rs : List (Handle × Request)} {payload : List ℕ}
        {payloads : List (List ℕ)} {s u : Server fat} (file : Option fat.File) (t : State fat)
        → serve fat cap r s ≡ finish fat cap r.req_id (payload, file, t)
        → Rounds rs payloads (serve fat cap r s) u
        → Rounds ((cap, r) ∷ rs) (payload ∷ payloads) s u

  -- The payloads of the specification, and the files at the end.
  unfoldable pub spec_all : List (Handle × Request) → Files → List (List ℕ) × Files
  spec_all [] m = ([], m)
  spec_all ((cap, r) ∷ rs) m =
      let (payload, m') = spec fat view r m in
      let (payloads, last) = spec_all rs m' in (payload ∷ payloads, last)

module _ (fat : FatFs) (view : View fat) (v : IsVolume fat view) where
  -- On a volume that has room and whose transfers do not fail, holding the files `m`: a mounted
  -- service answers any sequence of requests to write, read and delete, whose paths name no directory
  -- and no file by a short name made up for it, with exactly the payloads that the map from paths to
  -- bytes gives, one for each request, and it then holds the files of the map.
  pub serve_all-refines :
      (rs : List (Handle × Request)) (s : Server fat) (fs : fat.Fs) (m : Files)
      → all_file_ops rs ≡ true
      → all_plain fat view rs ≡ true
      → s.fs ≡ some fs
      → Holds fat view fs m
      → (u : Server fat) × (fs' : fat.Fs) × Rounds fat view rs (spec_all fat view rs m).0 s u
        × (u.fs ≡ some fs')
        × Holds fat view fs' (spec_all fat view rs m).1
  unfolding spec_all
  serve_all-refines [] s fs m ops plain mounted h = (s, fs, done s, mounted, h)
  serve_all-refines ((cap, r) ∷ rs) s fs m ops plain mounted h =
      let same : record { fs = some fs; client = s.client } ≡ s =
        ap (λ x. record { fs = x; client = s.client }) (sym mounted) in
      let (file, t, fs1, sent, mounted1, h1) =
        serve-refines fat view v cap r fs s.client m (ground (arith, ops)) (ground (arith, plain))
          h in
      let (u, fs2, rounds, mounted2, h2) =
        serve_all-refines rs (serve fat cap r s) fs1 (spec fat view r m).1 (ground (arith, ops))
          (ground (arith, plain)) (subst (λ z. (serve fat cap r z).fs ≡ some fs1) same mounted1)
          h1 in
      (
        u,
        fs2,
        next file t
            (subst
              (λ z. serve fat cap r z ≡ finish fat cap r.req_id ((spec fat view r m).0, file, t))
              same sent)
            rounds,
        mounted2,
        h2,
      )
