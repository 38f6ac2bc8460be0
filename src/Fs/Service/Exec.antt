-- ===== src/Fs/Service/Exec.antt =====
-- A request of the init service to execute a file, from its bytes to the program that is spawned.
use mene_os.Base.{
  ℕ, ◌+◌, ◌*◌, ◌%◌, ◌/◌, ◌≡◌, ◌≤◌, refl, sym, ◌∙◌, ap, subst, true, List, [], ◌∷◌, ◌++◌, Option,
  some, ◌==◌, if◌then◌else◌, arith, length, slice, from_le, to_le, take-append,
}
use mene_os.Base.Utf8.{is_utf8}
use mene_os.Abi.Fs
use mene_os.Init.Services.{exec_request}
use mene_os.Fs.FatFs.{FatFs, State, View, Same, IsVolume}
use mene_os.Fs.Requests.{decode_request, path_arg, normalize_path}
use mene_os.Fs.Service.{answer, answer_exec, on_path, spawn_elf, read_file_all, eio, ok}
use mene_os.Ulib.World.{World, do_spawn_elf, take_ret}
use mene_os.Ulib.Ipc.{sys_spawn_elf}
use mene_os.Fs.Service.ReadAll.{read_file_all_lem}

-- The file service reads the path out of the request that `fs_exec` of init sends, whatever lies
-- behind the message in its buffer.
path_arg-exec_request :
    (path junk : List ℕ)
    → 1 ≤ length path
    → length path ≤ Fs.max_path
    → is_utf8 path ≡ true
    → path_arg (decode_request (4 + length path) (exec_request path ++ junk)) ≡ some path
unfolding path_arg decode_request slice to_le from_le
path_arg-exec_request path junk some_path short text =
    let size : length path % 256 + 256 * (length path / 256 % 256 + 256 * 0) ≡ length path =
      omega arith in
    rw (size, take-append path junk) (ground (arith, text, some_path, short))

exec_arm :
    (fat : FatFs) (path junk : List ℕ) (s : State fat)
    → let r = decode_request (4 + length path) (exec_request path ++ junk) in
      answer fat r s ≡ on_path fat (answer_exec fat) (path_arg r) s
unfolding answer decode_request to_le from_le slice
exec_arm fat path junk s = refl

-- What sys_spawn_elf is to return next.
abbrev pub spawn_ret : List ℕ → ℕ
spawn_ret [] = 0
spawn_ret (pid ∷ pids) = pid

-- From `t` on, the service spawns `elf` under `path` and nothing else, its file system is as in `t`,
-- and the payload of its answer tells whether the spawn returned a process.
abbrev pub Spawned :
    (fat : FatFs) → List ℕ → List ℕ → State fat → List ℕ × Option fat.File × State fat → Type 0
Spawned fat path elf t (payload, file, u) =
    (u.1.world.spawned_elfs ≡ t.1.world.spawned_elfs ++ (path, elf) ∷ [])
    × (u.0 ≡ t.0)
    × (payload ≡ (
        if spawn_ret t.1.world.spawn_rets == 0 then b'E' ∷ b'I' ∷ b'O' ∷ [] else b'O' ∷ b'K' ∷ []))

next_ret : (w : World) (path elf : List ℕ) → (sys_spawn_elf path elf w).0 ≡ spawn_ret w.spawn_rets
unfolding sys_spawn_elf do_spawn_elf
next_ret w path elf = by_rets w.spawn_rets
  where
    by_rets : (rs : List ℕ) → (take_ret rs).0 ≡ spawn_ret rs
    by_rets [] = refl
    by_rets (r ∷ rs) = refl

spawned_next :
    (w : World) (path elf : List ℕ)
    → (sys_spawn_elf path elf w).1.spawned_elfs ≡ w.spawned_elfs ++ (path, elf) ∷ []
unfolding sys_spawn_elf do_spawn_elf
spawned_next w path elf = refl

spawned :
    (fat : FatFs) (path elf : List ℕ) (t : State fat) (x : List ℕ × Option fat.File × State fat)
    → x ≡ spawn_elf fat path (some elf, t)
    → Spawned fat path elf t x
spawned fat path elf (fs, c) x e = subst (Spawned fat path elf (fs, c)) (sym e) (
  spawned_next c.world path elf,
  refl,
  ap (λ n. if n == 0 then eio else ok) (next_ret c.world path elf),
)

-- On a volume that has room and whose transfers do not fail, on which `path` is a file with the
-- bytes `elf`: the request of `fs_exec` of init to execute `path`, with any bytes behind it in the
-- buffer, is served by reading all of `elf`, which changes no file, and then spawning exactly these
-- bytes under `path`, once. The answer is EIO if the spawn returns 0, and OK otherwise.
pub answer-exec_request :
    (fat : FatFs) (view : View fat)
    → IsVolume fat view
    → (path elf junk : List ℕ) (s : State fat) → 1 ≤ length path
    → length path ≤ Fs.max_path
    → is_utf8 path ≡ true
    → view.content s.0 (normalize_path path) ≡ some elf
    → (t : State fat) × (read_file_all fat path s ≡ (some elf, t))
      × Same fat view s t
      × Spawned fat path elf t
          (answer fat (decode_request (4 + length path) (exec_request path ++ junk)) s)
unfolding answer answer_exec
answer-exec_request fat view v path elf junk s some_path short text there =
    let (t, e, same) = read_file_all_lem fat view v path s in
    let arg = path_arg-exec_request path junk some_path short text in
    (
      t,
      e ∙ ap (λ x. (x, t)) there,
      same,
      spawned fat path elf t _ (
          exec_arm fat path junk s
          ∙ ap (λ x. on_path fat (answer_exec fat) x s) arg
          ∙ ap (spawn_elf fat path) (e ∙ ap (λ x. (x, t)) there)),
    )
