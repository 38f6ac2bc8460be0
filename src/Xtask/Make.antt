-- ===== src/Xtask/Make.antt =====
-- xtask/src/make.rs, context.rs, commands/build.rs and commands/run.rs: the call of `make`.
pub mod Given
pub mod Values
use mene_os.Base.{
  ℕ, Bool, true, false, not, ◌&&◌, ◌||◌, List, [], ◌∷◌, ◌++◌, Option, none, some, Result, ok, err,
  map, ◌==◌, if◌then◌else◌,
}
use mene_os.Base.Text.{starts_with}
use mene_os.Xtask.{
  text, XtaskError, io, message, Command, Status, not_started, exited, Shell, status, join, slashes,
}

pub record MakeArgs : Type 0 where
  pub arch : List ℕ
  pub app : List ℕ
  pub make_args : List (List ℕ)

pub record Workspace : Type 0 where
  pub root_dir : List ℕ
  pub arceos_dir : List ℕ
  pub app_dir : List ℕ

-- What the tool sees of the machine: whether it runs on macOS, the environment after `.env` is
-- loaded, the files, and the parent of CARGO_MANIFEST_DIR.
pub record Host : Type 0 where
  pub is_macos : Bool
  pub var : List ℕ → Option (List ℕ)
  pub is_file : List ℕ → Bool
  pub exists : List ℕ → Bool
  pub manifest_parent : Option (List ℕ)

-- `args.iter().any(|arg| arg.starts_with(prefix))`
unfoldable pub any_starts_with : List ℕ → List (List ℕ) → Bool
any_starts_with prefix [] = false
any_starts_with prefix (arg ∷ args) = starts_with prefix arg || any_starts_with prefix args

abbrev pub has_arg_override : MakeArgs → List ℕ → Bool
has_arg_override args prefix = any_starts_with prefix args.make_args

-- `format!("{}={}", key, val)`
abbrev pub assign : List ℕ → List ℕ → List ℕ
assign key val = key ++ b'=' ∷ val

abbrev pub is_none : Option (List ℕ) → Bool
is_none none = true
is_none (some val) = false

abbrev pub or_else : List ℕ → Option (List ℕ) → List ℕ
or_else default none = default
or_else default (some val) = val

abbrev pub only_if : Bool → List ℕ → List (List ℕ)
only_if true arg = arg ∷ []
only_if false arg = []

abbrev pub some_value : Option (List ℕ) → List ℕ → List (List ℕ)
some_value none key = []
some_value (some val) key = assign key val ∷ []

module _ (host : Host) (ws : Workspace) (args : MakeArgs) where
  abbrev pub overrides : List ℕ → Bool
  overrides key = has_arg_override args (key ++ b'=' ∷ [])

  abbrev pub accel_default : List (List ℕ)
  accel_default =
      only_if (host.is_macos && not (overrides (text "ACCEL")) && is_none (host.var (text "ACCEL")))
        (text "ACCEL=n")

  -- The default `key=y` of BLK and NO_AXSTD
  abbrev pub yes_default : List ℕ → List (List ℕ)
  yes_default key = only_if (not (overrides key) && is_none (host.var key)) (assign key (text "y"))

  abbrev pub disk_img_arg : List (List ℕ)
  disk_img_arg = only_if (not (overrides (text "DISK_IMG"))) (
      assign (text "DISK_IMG")
        (slashes (join ws.root_dir (or_else (text "disk.img") (host.var (text "DISK_IMG"))))))

  -- A round of the loop over the keys that are passed on.
  abbrev pub env_arg : List ℕ → List (List ℕ)
  env_arg key = if overrides key then [] else some_value (host.var key) key

  abbrev pub first_args : List (List ℕ)
  first_args =
      text "-C"
      ∷ slashes ws.arceos_dir
      ∷ assign (text "A") (slashes ws.app_dir)
      ∷ assign (text "ARCH") args.arch
      ∷ []

  abbrev pub last_args : List ℕ → List (List ℕ)
  last_args target =
      assign (text "TARGET_DIR") (slashes (join ws.root_dir (text "target")))
      ∷ assign (text "OUT_CONFIG") (slashes (join ws.root_dir (text ".axconfig.toml")))
      ∷ target
      ∷ []

  unfoldable pub build_command_args : List ℕ → List (List ℕ)
  build_command_args target =
      first_args
      ++ (accel_default
          ++ (yes_default (text "BLK")
              ++ (disk_img_arg
                  ++ (yes_default (text "NO_AXSTD")
                      ++ (env_arg (text "ACCEL")
                          ++ (env_arg (text "BLK")
                              ++ (env_arg (text "NO_AXSTD")
                                  ++ (args.make_args ++ last_args target))))))))

abbrev pub missing : List ℕ → List ℕ → XtaskError
missing what path = message (what ++ path)

-- `duct` reports a status that is no success as an error, too.
abbrev pub run_result : Status × Shell → Result XtaskError Unit × Shell
run_result (not_started, sh) = (err io, sh)
run_result (exited false, sh) = (err io, sh)
run_result (exited true, sh) = (ok tt, sh)

abbrev pub ensure_app : Host → Workspace → Result XtaskError Unit
ensure_app host ws =
    let manifest = join ws.app_dir (text "Cargo.toml") in
    if host.is_file manifest
    then ok tt
    else err (missing (text "app manifest not found: ") manifest)

abbrev pub make_in :
    Host
    → Workspace
    → MakeArgs
    → List ℕ
    → Result XtaskError Unit
    → Shell
    → Result XtaskError Unit × Shell
make_in host ws args target (err e) sh = (err e, sh)
make_in host ws args target (ok tt) sh = run_result (
    status
      (record { program = text "make"; args = build_command_args host ws args target; env = [] })
      sh)

unfoldable pub invoke :
    Host → Workspace → MakeArgs → List ℕ → Shell → Result XtaskError Unit × Shell
invoke host ws args target sh = make_in host ws args target (ensure_app host ws) sh

abbrev pub workspace_at : Host → List ℕ → List ℕ → Result XtaskError Workspace
workspace_at host app root =
    let arceos = join root (text "arceos") in
    let makefile = join arceos (text "Makefile") in
    if host.is_file makefile
    then ok (record { root_dir = root; arceos_dir = arceos; app_dir = join root app })
    else err (missing (text "ArceOS Makefile not found: ") makefile)

unfoldable pub discover : Host → List ℕ → Result XtaskError Workspace
discover host app = elim host.manifest_parent [
  | none ↦ err (message (text "failed to locate workspace root"))
  | some root ↦ workspace_at host app root
]

abbrev pub on_workspace :
    (Workspace → Shell → Result XtaskError Unit × Shell)
    → Result XtaskError Workspace
    → Shell
    → Result XtaskError Unit × Shell
on_workspace next (err e) sh = (err e, sh)
on_workspace next (ok ws) sh = next ws sh

-- commands/build.rs
unfoldable pub build : Host → MakeArgs → Shell → Result XtaskError Unit × Shell
build host args sh =
    on_workspace (λ ws. invoke host ws args (text "build")) (discover host args.app) sh

abbrev pub run_make : Host → MakeArgs → Workspace → Shell → Result XtaskError Unit × Shell
run_make host args ws sh =
    if host.exists (text "disk.img") then invoke host ws args (text "run") sh else (
      err (message (text "disk.img not found. Please run `cargo xtask mene-rootfs` first.")),
      sh,
    )

-- commands/run.rs
unfoldable pub run : Host → MakeArgs → Shell → Result XtaskError Unit × Shell
run host args sh = on_workspace (run_make host args) (discover host args.app) sh
