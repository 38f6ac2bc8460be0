-- ===== src/Xtask/MeneRootfs.antt =====
-- xtask/src/commands/mene_rootfs.rs: the build of the apps and the image of the disk.
pub mod Plan
pub mod Worked
use mene_os.Base.{
  ℕ, Bool, true, false, ◌&&◌, List, [], ◌∷◌, ◌++◌, Option, none, some, Result, ok, err, bytes_eq,
  if◌then◌else◌,
}
use mene_os.Xtask.{
  text, XtaskError, io, message, Command, Status, not_started, exited, Shell, status,
}

abbrev pub Step : Type 0
Step = Shell → Result XtaskError Unit × Shell

abbrev pub and_then : Step → Result XtaskError Unit × Shell → Result XtaskError Unit × Shell
and_then next (err e, sh) = (err e, sh)
and_then next (ok tt, sh) = next sh

-- `?` behind a call: the next one runs if it returned `Ok`.
infixr 45 ◌>>◌
abbrev pub ◌>>◌ : Step → Step → Step
(step >> next) sh = and_then next (step sh)

abbrev pub done : Step
done sh = (ok tt, sh)

abbrev pub fail : XtaskError → Step
fail e sh = (err e, sh)

abbrev pub ignored : Status × Shell → Result XtaskError Unit × Shell
ignored (not_started, sh) = (err io, sh)
ignored (exited success, sh) = (ok tt, sh)

abbrev pub tested : List ℕ → Status × Shell → Result XtaskError Unit × Shell
tested failure (not_started, sh) = (err io, sh)
tested failure (exited false, sh) = (err (message failure), sh)
tested failure (exited true, sh) = (ok tt, sh)

-- A command whose status is not looked at, and one that must succeed.
abbrev pub unchecked : Command → Step
unchecked c sh = ignored (status c sh)

abbrev pub checked : Command → List ℕ → Step
checked c failure sh = tested failure (status c sh)

abbrev pub vdisk : List (List ℕ) → Command
vdisk args = record { program = text "vdisk"; args = text "disk.img" ∷ args; env = [] }

abbrev pub cargo : List ℕ → List ℕ → List (List ℕ × List ℕ) → Command
cargo target manifest vars = record {
  program = text "cargo";
  args =
      text "build"
      ∷ text "--release"
      ∷ text "--target"
      ∷ target
      ∷ text "--manifest-path"
      ∷ manifest
      ∷ [];
  env = vars;
}

abbrev pub unsupported : List ℕ → List ℕ → XtaskError
unsupported what arch = message (what ++ arch)

-- The two matches on the architecture.
abbrev pub target_of : List ℕ → Result XtaskError (List ℕ)
target_of arch =
    if bytes_eq arch (text "aarch64")
    then ok (text "aarch64-unknown-none-softfloat")
    else err (unsupported (text "Unsupported architecture: ") arch)

abbrev pub compat_target_of : List ℕ → Result XtaskError (List ℕ)
compat_target_of arch =
    if bytes_eq arch (text "aarch64")
    then ok (text "aarch64-unknown-linux-musl")
    else err (unsupported (text "Unsupported architecture for syscall_compat: ") arch)

abbrev pub build_apps : List ℕ → Step
build_apps target = checked (cargo target (text "apps/Cargo.toml") []) (text "Failed to build apps")

abbrev pub compat_failure : List ℕ
compat_failure =
    text
      "Failed to build syscall_compat (linux-musl target). Install target via `rustup target add aarch64-unknown-linux-musl`"

abbrev pub build_compat : List ℕ → Step
build_compat compat_target =
    checked
      (cargo compat_target (text "apps/syscall_compat/Cargo.toml")
        ((text "CARGO_TARGET_AARCH64_UNKNOWN_LINUX_MUSL_LINKER", text "rust-lld") ∷ []))
      compat_failure

abbrev pub dd : Command
dd = vdisk (text "dd" ∷ text "--size" ∷ text "128M" ∷ [])

abbrev pub mkfs : Command
mkfs = vdisk (text "mkfs" ∷ text "--fstype" ∷ text "fat32" ∷ text "-y" ∷ [])

-- The image is made if the file is not there.
abbrev pub create_image : Bool → Step
create_image true = done
create_image false = unchecked dd >> unchecked mkfs

abbrev pub rm_boot : Command
rm_boot = vdisk (text "rm" ∷ text "-rf" ∷ text "/boot" ∷ [])

abbrev pub mkdir_boot : Command
mkdir_boot = vdisk (text "mkdir" ∷ text "boot" ∷ [])

abbrev pub copy : List ℕ → Command
copy host_path = vdisk (text "cp" ∷ host_path ∷ text "/boot/" ∷ [])

abbrev pub app_path : List ℕ → List ℕ → List ℕ
app_path target app = text "host:apps/target/" ++ (target ++ (text "/release/" ++ app))

abbrev pub compat_path : List ℕ → List ℕ
compat_path compat_target =
    text "host:apps/syscall_compat/target/" ++ (compat_target ++ text "/release/syscall_compat")

-- An entry of the directory `apps`: its name, if that is UTF-8, whether it is a directory, and
-- whether it has a file src/main.rs.
pub record Entry : Type 0 where
  pub name : Option (List ℕ)
  pub is_dir : Bool
  pub has_main : Bool

abbrev pub add_app : Bool → Option (List ℕ) → List (List ℕ) → List (List ℕ)
add_app false name apps = apps
add_app true none apps = apps
add_app true (some name) apps = name ∷ apps

unfoldable pub find_apps : List Entry → List (List ℕ)
find_apps [] = []
find_apps (e ∷ es) = add_app (e.is_dir && e.has_main) e.name (find_apps es)

-- The entries are `none` if the directory cannot be read.
abbrev pub apps_in : Option (List Entry) → List (List ℕ)
apps_in none = []
apps_in (some entries) = find_apps entries

unfoldable pub copy_apps : List ℕ → List (List ℕ) → Step
copy_apps target [] = done
copy_apps target (app ∷ apps) =
    if bytes_eq app (text "syscall_compat")
    then copy_apps target apps
    else checked (copy (app_path target app)) (text "Failed to copy " ++ app)
      >> copy_apps target apps

abbrev pub make_image : List ℕ → Bool → Option (List Entry) → List ℕ → Step
make_image target exists entries compat_target =
    build_compat compat_target
    >> create_image exists
    >> unchecked rm_boot
    >> unchecked mkdir_boot
    >> copy_apps target (apps_in entries)
    >> checked (copy (compat_path compat_target)) (text "Failed to copy syscall_compat")
    >> checked (copy (text "host:apps/boot.toml")) (text "Failed to copy boot.toml")

abbrev pub with_target : (List ℕ → Step) → Result XtaskError (List ℕ) → Step
with_target next (err e) = fail e
with_target next (ok target) = next target

abbrev pub run_target : List ℕ → Bool → Option (List Entry) → List ℕ → Step
run_target arch exists entries target =
    build_apps target >> with_target (make_image target exists entries) (compat_target_of arch)

unfoldable pub run : List ℕ → Bool → Option (List Entry) → Step
run arch exists entries = with_target (run_target arch exists entries) (target_of arch)
