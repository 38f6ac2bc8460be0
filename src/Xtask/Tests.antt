-- ===== src/Xtask/Tests.antt =====
-- Runs of the build tool at concrete inputs.
use mene_os.Base.{◌≡◌, refl, true, false, List, [], ◌∷◌, none, some, drop, bytes_eq, if◌then◌else◌}
use mene_os.Xtask.{text, Shell, exited}
use mene_os.Xtask.Make.{Host, Workspace, MakeArgs, any_starts_with, build_command_args}
use mene_os.Xtask.Make.Given.{given}
use mene_os.Xtask.Make.Values.{blk, build_command_args_lem}
use mene_os.Xtask.MeneRootfs.{Entry, run, apps_in}
use mene_os.Xtask.MeneRootfs.Plan.{plan}
use mene_os.Xtask.MeneRootfs.Worked.{Worked, run-Worked}

-- BLK stands in the environment, and the user gives DISK_IMG.
abbrev host : Host
host = record {
  is_macos = false;
  var = λ key. if bytes_eq key (text "BLK") then some (text "n") else none;
  is_file = λ path. true;
  exists = λ path. true;
  manifest_parent = some (text "/work");
}

abbrev workspace : Workspace
workspace = record {
  root_dir = text "/work";
  arceos_dir = text "/work/arceos";
  app_dir = text "/work/entry";
}

abbrev make_args : MakeArgs
make_args = record {
  arch = text "aarch64";
  app = text "entry";
  make_args = text "DISK_IMG=/tmp/d.img" ∷ [];
}

build_command_args_lem_example :
    given (text "BLK") (drop 4 (build_command_args host workspace make_args (text "run")))
    ≡ text "BLK=n" ∷ []
unfolding bytes_eq any_starts_with
build_command_args_lem_example =
    build_command_args_lem host workspace make_args blk (text "run") refl

-- The removal of /boot fails, which is allowed.
abbrev shell : Shell
shell = record { ran = []; statuses = exited true ∷ exited true ∷ exited false ∷ [] }

abbrev entries : List Entry
entries = record { name = some (text "fs"); is_dir = true; has_main = true } ∷ []

run-Worked_example :
    Worked
      (plan true (apps_in (some entries)))
      shell
      (run (text "aarch64") true (some entries) shell)
run-Worked_example = run-Worked true (some entries) shell
