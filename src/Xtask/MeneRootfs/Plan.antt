-- ===== src/Xtask/MeneRootfs/Plan.antt =====
-- The run as a list of commands that is worked off.
use mene_os.Base.{
  ℕ, ◌≡◌, inl, inr, refl, sym, ◌∙◌, ap, Bool, true, false, List, [], ◌∷◌, ◌++◌, Option, none, some,
  Result, ok, err, bytes_eq, if◌then◌else◌, Bool-cases,
}
use mene_os.Xtask.{text, XtaskError, Command, Status, Shell, status}
use mene_os.Xtask.MeneRootfs.{
  Step, and_then, ◌>>◌, ignored, tested, checked, unchecked, cargo, compat_failure, dd, mkfs,
  rm_boot, mkdir_boot, copy, app_path, compat_path, Entry, apps_in, copy_apps, create_image,
  build_compat, run,
}

-- A command, and the message if it must succeed.
pub record Task : Type 0 where
  pub command : Command
  pub failure : Option (List ℕ)

abbrev must : Command → List ℕ → Task
must c failure = record { command = c; failure = some failure }

abbrev may : Command → Task
may c = record { command = c; failure = none }

pub copies : List ℕ → List (List ℕ) → List Task
copies target [] = []
copies target (app ∷ apps) =
    if bytes_eq app (text "syscall_compat")
    then copies target apps
    else must (copy (app_path target app)) (text "Failed to copy " ++ app) ∷ copies target apps

abbrev pub create : Bool → List Task
create true = []
create false = may dd ∷ may mkfs ∷ []

-- The two targets.
abbrev target : List ℕ
target = text "aarch64-unknown-none-softfloat"

abbrev compat_target : List ℕ
compat_target = text "aarch64-unknown-linux-musl"

abbrev build_apps_task : Task
build_apps_task = must (cargo target (text "apps/Cargo.toml") []) (text "Failed to build apps")

abbrev build_compat_task : Task
build_compat_task =
    must
      (cargo compat_target (text "apps/syscall_compat/Cargo.toml")
        ((text "CARGO_TARGET_AARCH64_UNKNOWN_LINUX_MUSL_LINKER", text "rust-lld") ∷ []))
      compat_failure

abbrev copy_compat : Task
copy_compat = must (copy (compat_path compat_target)) (text "Failed to copy syscall_compat")

abbrev copy_boot : Task
copy_boot = must (copy (text "host:apps/boot.toml")) (text "Failed to copy boot.toml")

-- The commands for the architecture aarch64, in their order.
abbrev pub plan : Bool → List (List ℕ) → List Task
plan exists apps =
    build_apps_task
    ∷ build_compat_task
    ∷ (create exists
        ++ (may rm_boot ∷ may mkdir_boot ∷ (copies target apps ++ (copy_compat ∷ copy_boot ∷ []))))

abbrev pub settle : Option (List ℕ) → Status × Shell → Result XtaskError Unit × Shell
settle none x = ignored x
settle (some failure) x = tested failure x

-- The commands of a list one after the other, as long as none fails.
unfoldable pub execute : List Task → Step
execute [] sh = (ok tt, sh)
execute (t ∷ ts) sh = and_then (execute ts) (settle t.failure (status t.command sh))

and_then_cong :
    (f g : Step)
    → ((sh : Shell) → f sh ≡ g sh)
    → (x : Result XtaskError Unit × Shell) → and_then f x ≡ and_then g x
and_then_cong f g same (ok tt, sh) = same sh
and_then_cong f g same (err e, sh) = refl

and_then_assoc :
    (f g : Step) (x : Result XtaskError Unit × Shell)
    → and_then (λ sh. and_then g (f sh)) x ≡ and_then g (and_then f x)
and_then_assoc f g (ok tt, sh) = refl
and_then_assoc f g (err e, sh) = refl

execute-append :
    (l m : List Task) (sh : Shell) → execute (l ++ m) sh ≡ and_then (execute m) (execute l sh)
unfolding execute
execute-append [] m sh = refl
execute-append (t ∷ l) m sh =
    and_then_cong (execute (l ++ m)) (λ sh'. and_then (execute m) (execute l sh'))
      (execute-append l m) (settle t.failure (status t.command sh))
    ∙ and_then_assoc (execute l) (execute m) (settle t.failure (status t.command sh))

execute-copies :
    (target : List ℕ) (apps : List (List ℕ)) (sh : Shell)
    → copy_apps target apps sh ≡ execute (copies target apps) sh
unfolding execute copies copy_apps
execute-copies target [] sh = refl
execute-copies target (app ∷ apps) sh = elim (Bool-cases (bytes_eq app (text "syscall_compat"))) [
  | inl compat ↦ rw compat (execute-copies target apps sh)
  | inr other ↦
      let next : Step = copy_apps target apps in
      let path = copy (app_path target app) in
      rw other (
        and_then_cong next (execute (copies target apps)) (execute-copies target apps)
          (checked path (text "Failed to copy " ++ app) sh))
]

-- A step before others, in front of the list of the others.
execute-before :
    (t : Task) (f : Step) (ts : List Task)
    → ((sh : Shell) → f sh ≡ execute ts sh)
    → (sh : Shell) → and_then f (settle t.failure (status t.command sh)) ≡ execute (t ∷ ts) sh
unfolding execute
execute-before t f ts same sh =
    and_then_cong f (execute ts) same (settle t.failure (status t.command sh))

execute-create :
    (exists : Bool) (f : Step) (ts : List Task)
    → ((sh : Shell) → f sh ≡ execute ts sh)
    → (sh : Shell) → and_then f (create_image exists sh) ≡ execute (create exists ++ ts) sh
execute-create true f ts same sh = same sh
execute-create false f ts same sh =
    sym (and_then_assoc (unchecked mkfs) f (unchecked dd sh))
    ∙ execute-before (may dd) (λ sh'. and_then f (unchecked mkfs sh')) (may mkfs ∷ ts)
        (execute-before (may mkfs) f ts same) sh

execute-copy_apps :
    (target : List ℕ) (apps : List (List ℕ)) (f : Step) (ts : List Task)
    → ((sh : Shell) → f sh ≡ execute ts sh)
    → (sh : Shell) → and_then f (copy_apps target apps sh) ≡ execute (copies target apps ++ ts) sh
execute-copy_apps target apps f ts same sh =
    ap (and_then f) (execute-copies target apps sh)
    ∙ and_then_cong f (execute ts) same (execute (copies target apps) sh)
    ∙ sym (execute-append (copies target apps) ts sh)

execute-last :
    (t : Task) (sh : Shell) → settle t.failure (status t.command sh) ≡ execute (t ∷ []) sh
unfolding execute
execute-last t sh = go (settle t.failure (status t.command sh))
  where
    go : (x : Result XtaskError Unit × Shell) → x ≡ and_then (execute []) x
    go (ok tt, sh') = refl
    go (err e, sh') = refl

abbrev step : Task → Step
step t sh = settle t.failure (status t.command sh)

-- For the architecture aarch64 the tool works off the plan.
pub run-execute :
    (exists : Bool) (entries : Option (List Entry)) (sh : Shell)
    → run (text "aarch64") exists entries sh ≡ execute (plan exists (apps_in entries)) sh
unfolding run bytes_eq
run-execute exists entries sh =
    let apps = apps_in entries in
    let ending : Step = step copy_compat >> step copy_boot in
    let end_tasks = copy_compat ∷ copy_boot ∷ [] in
    let copying : Step = copy_apps target apps >> ending in
    let copy_tasks = copies target apps ++ end_tasks in
    let resetting : Step = unchecked rm_boot >> unchecked mkdir_boot >> copying in
    let reset_tasks = may rm_boot ∷ may mkdir_boot ∷ copy_tasks in
    let end_same : (x : Shell) → ending x ≡ execute end_tasks x =
      execute-before copy_compat (step copy_boot) (copy_boot ∷ []) (execute-last copy_boot) in
    let copy_same : (x : Shell) → copying x ≡ execute copy_tasks x =
      execute-copy_apps target apps ending end_tasks end_same in
    let reset_same : (x : Shell) → resetting x ≡ execute reset_tasks x =
      execute-before (may rm_boot) (unchecked mkdir_boot >> copying) (may mkdir_boot ∷ copy_tasks)
        (execute-before (may mkdir_boot) copying copy_tasks copy_same) in
    let image_same : (x : Shell)
        → (create_image exists >> resetting) x ≡ execute (create exists ++ reset_tasks) x =
      execute-create exists resetting reset_tasks reset_same in
    execute-before build_apps_task (build_compat compat_target >> create_image exists >> resetting)
      (build_compat_task ∷ (create exists ++ reset_tasks))
      (execute-before build_compat_task (create_image exists >> resetting)
        (create exists ++ reset_tasks) image_same)
      sh
