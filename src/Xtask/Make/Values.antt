-- ===== src/Xtask/Make/Values.antt =====
-- The values that the arguments of `make` give to the variables of the tool.
use mene_os.Base.{
  ℕ, ◌≡◌, refl, ◌∙◌, ap, true, false, not, ◌&&◌, List, [], ◌∷◌, ◌++◌, drop, if◌then◌else◌, bytes_eq,
}
use mathlib.Core.List.{append-nil}
use mene_os.Base.Text.{starts_with}
use mene_os.Xtask.{text, join, slashes}
use mene_os.Xtask.Make.{
  Host, Workspace, MakeArgs, assign, only_if, is_none, or_else, overrides, accel_default,
  yes_default, disk_img_arg, env_arg, last_args, build_command_args,
}
use mene_os.Xtask.Make.Given.{
  given, given-append, given-make_args, given-only_if, given-some_value, split_parts, env_or,
  default_env_user, value_or_user,
}

-- The variables that the tool sets itself.
pub data Key : Type 0 where
  accel blk disk_img no_axstd : Key

abbrev pub name : Key → List ℕ
name accel = text "ACCEL"
name blk = text "BLK"
name disk_img = text "DISK_IMG"
name no_axstd = text "NO_AXSTD"

module _ (host : Host) (ws : Workspace) (args : MakeArgs) where
  abbrev pub default : Key → List (List ℕ)
  default accel = only_if host.is_macos (text "ACCEL=n")
  default blk = text "BLK=y" ∷ []
  default disk_img = assign (text "DISK_IMG") (slashes (join ws.root_dir (text "disk.img"))) ∷ []
  default no_axstd = text "NO_AXSTD=y" ∷ []

  abbrev pub from_env : Key → List ℕ → List ℕ
  from_env disk_img val = assign (text "DISK_IMG") (slashes (join ws.root_dir val))
  from_env key val = assign (name key) val

  -- The user's own arguments, or else the environment's value, or else the default.
  abbrev pub expected : Key → List (List ℕ)
  expected key =
      if overrides host ws args (name key)
      then given (name key) args.make_args
      else env_or (default key) (from_env key) (host.var (name key))

  no_override : (key : List ℕ) → overrides host ws args key ≡ false → given key args.make_args ≡ []
  no_override key h = given-make_args key args.make_args h

  abbrev Quiet : Key → List ℕ → Type 0
  Quiet key target = starts_with (name key ++ b'=' ∷ []) target ≡ false

  -- The user's arguments and what stands behind them.
  user_part :
      (key : Key) (target : List ℕ)
      → Quiet key target
      → given (name key) (args.make_args ++ last_args host ws args target)
        ≡ given (name key) args.make_args
  unfolding given bytes_eq
  user_part key target quiet =
      given-append (name key) args.make_args (last_args host ws args target)
      ∙ ap (given (name key) args.make_args ++◌) (last_part key quiet)
      ∙ append-nil (given (name key) args.make_args)
    where
      last_part : (k : Key) → Quiet k target → given (name k) (last_args host ws args target) ≡ []
      last_part accel h = rw h refl
      last_part blk h = rw h refl
      last_part disk_img h = rw h refl
      last_part no_axstd h = rw h refl

  yes_quiet :
      (key other : List ℕ)
      → starts_with (key ++ b'=' ∷ []) (assign other (text "y")) ≡ false
      → given key (yes_default host ws args other) ≡ []
  yes_quiet key other h =
      given-only_if key (assign other (text "y"))
        (not (overrides host ws args other) && is_none (host.var other)) h

  env_quiet :
      (key other : List ℕ)
      → ((v : List ℕ) → starts_with (key ++ b'=' ∷ []) (assign other v) ≡ false)
      → given key (env_arg host ws args other) ≡ []
  env_quiet key other h =
      given-some_value key other (overrides host ws args other) (host.var other) h

  disk_quiet :
      (key : List ℕ)
      → ((v : List ℕ) → starts_with (key ++ b'=' ∷ []) (assign (text "DISK_IMG") v) ≡ false)
      → given key (disk_img_arg host ws args) ≡ []
  disk_quiet key h =
      let path =
        slashes (join ws.root_dir (or_else (text "disk.img") (host.var (text "DISK_IMG")))) in
      given-only_if key (assign (text "DISK_IMG") path)
        (not (overrides host ws args (text "DISK_IMG"))) (h path)

  accel_quiet :
      (key : List ℕ)
      → starts_with (key ++ b'=' ∷ []) (text "ACCEL=n") ≡ false
      → given key (accel_default host ws args) ≡ []
  accel_quiet key h =
      given-only_if key (text "ACCEL=n")
        (host.is_macos
          && not (overrides host ws args (text "ACCEL"))
          && is_none (host.var (text "ACCEL")))
        h

  given-parts :
      (key target : List ℕ)
      → given key (drop 4 (build_command_args host ws args target))
        ≡ given key (accel_default host ws args)
          ++ (given key (yes_default host ws args (text "BLK"))
              ++ (given key (disk_img_arg host ws args)
                  ++ (given key (yes_default host ws args (text "NO_AXSTD"))
                      ++ (given key (env_arg host ws args (text "ACCEL"))
                          ++ (given key (env_arg host ws args (text "BLK"))
                              ++ (given key (env_arg host ws args (text "NO_AXSTD"))
                                  ++ given key
                                      (args.make_args ++ last_args host ws args target)))))))
  unfolding build_command_args
  given-parts key target =
      split_parts key (accel_default host ws args) (yes_default host ws args (text "BLK"))
        (disk_img_arg host ws args) (yes_default host ws args (text "NO_AXSTD"))
        (env_arg host ws args (text "ACCEL")) (env_arg host ws args (text "BLK"))
        (env_arg host ws args (text "NO_AXSTD")) (args.make_args ++ last_args host ws args target)

  given-accel :
      (target : List ℕ)
      → Quiet accel target
      → given (name accel) (drop 4 (build_command_args host ws args target)) ≡ expected accel
  unfolding bytes_eq
  given-accel target quiet =
      let k = text "ACCEL" in
      given-parts k target
      ∙ rw
          (
            yes_quiet k (text "BLK") refl,
            disk_quiet k (λ v. refl),
            yes_quiet k (text "NO_AXSTD") refl,
            env_quiet k (text "BLK") (λ v. refl),
            env_quiet k (text "NO_AXSTD") (λ v. refl),
            user_part accel target quiet,
          )
          (default_env_user k (text "n") host.is_macos (overrides host ws args k) (host.var k)
            args.make_args (no_override k))

  given-blk :
      (target : List ℕ)
      → Quiet blk target
      → given (name blk) (drop 4 (build_command_args host ws args target)) ≡ expected blk
  unfolding bytes_eq
  given-blk target quiet =
      let k = text "BLK" in
      given-parts k target
      ∙ rw
          (
            accel_quiet k refl,
            disk_quiet k (λ v. refl),
            yes_quiet k (text "NO_AXSTD") refl,
            env_quiet k (text "ACCEL") (λ v. refl),
            env_quiet k (text "NO_AXSTD") (λ v. refl),
            user_part blk target quiet,
          )
          (default_env_user k (text "y") true (overrides host ws args k) (host.var k) args.make_args
            (no_override k))

  given-no_axstd :
      (target : List ℕ)
      → Quiet no_axstd target
      → given (name no_axstd) (drop 4 (build_command_args host ws args target)) ≡ expected no_axstd
  unfolding bytes_eq
  given-no_axstd target quiet =
      let k = text "NO_AXSTD" in
      given-parts k target
      ∙ rw
          (
            accel_quiet k refl,
            yes_quiet k (text "BLK") refl,
            disk_quiet k (λ v. refl),
            env_quiet k (text "ACCEL") (λ v. refl),
            env_quiet k (text "BLK") (λ v. refl),
            user_part no_axstd target quiet,
          )
          (default_env_user k (text "y") true (overrides host ws args k) (host.var k) args.make_args
            (no_override k))

  given-disk_img :
      (target : List ℕ)
      → Quiet disk_img target
      → given (name disk_img) (drop 4 (build_command_args host ws args target)) ≡ expected disk_img
  unfolding bytes_eq
  given-disk_img target quiet =
      let k = text "DISK_IMG" in
      given-parts k target
      ∙ rw
          (
            accel_quiet k refl,
            yes_quiet k (text "BLK") refl,
            yes_quiet k (text "NO_AXSTD") refl,
            env_quiet k (text "ACCEL") (λ v. refl),
            env_quiet k (text "BLK") (λ v. refl),
            env_quiet k (text "NO_AXSTD") (λ v. refl),
            user_part disk_img target quiet,
          )
          (value_or_user k (text "disk.img") (λ v. slashes (join ws.root_dir v))
            (overrides host ws args k) (host.var k) args.make_args (no_override k))

  -- For ACCEL, BLK, DISK_IMG and NO_AXSTD, if the name of the target does not begin with `key=`: of the
  -- arguments of `make` behind the first four, those that give the variable are those of the user if
  -- the user gave it; otherwise the one with the value of the environment; without one the default,
  -- which ACCEL has on macOS only. So the variable is given once, or as the user gave it.
  pub build_command_args_lem :
      (key : Key) (target : List ℕ)
      → starts_with (name key ++ b'=' ∷ []) target ≡ false
      → given (name key) (drop 4 (build_command_args host ws args target)) ≡ expected key
  build_command_args_lem accel target quiet = given-accel target quiet
  build_command_args_lem blk target quiet = given-blk target quiet
  build_command_args_lem disk_img target quiet = given-disk_img target quiet
  build_command_args_lem no_axstd target quiet = given-no_axstd target quiet
