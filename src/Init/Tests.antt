-- ===== src/Init/Tests.antt =====
-- Runs of the init service at concrete inputs.
use mene_os.Base.{
  ℕ, ◌≤◌, ◌≡◌, ◌⊎◌, refl, true, false, List, [], ◌∷◌, some, arith, replicate, length-replicate, ◌↔◌,
  slice, bytes_eq,
}
use mene_os.Base.Slots.{find_first}
use mene_os.Init.Registry.{lookup}
use mene_os.Init.ControlPlane.{Plane}
use mene_os.Init.Services.{
  ServiceSpec, ServiceRuntime, empty_spec, empty_runtime, on_failure, always, blk_ping,
  probe_service,
}
use mene_os.Init.Launch.{Launch, launch_graph}
use mene_os.Init.Launch.Rounds.{was_attempted}
use mene_os.Init.BootGraph.{
  parse_boot_graph, parse_lines, clean_line, parse_service_section_name, parse_kv, set_key,
  finish_spec, parse_dep_list, add_deps,
}
use mene_os.Base.Text.{
  lines_onto, strip_cr, find_byte, trim, trim_start, trim_spaces, trim_end, space_len, ends_with,
  split_onto,
}
use mene_os.Init.BootGraph.Valid.{IsListed, parse_boot_graph-IsListed}
use mene_os.Init.BootGraph.Names.{spec_at}
use mene_os.Init.BootGraph.Boot.{Ready, launch_boot_graph}
use mene_os.Init.Supervisor.Failing.{after, failing_stops}

abbrev fs_name : List ℕ
fs_name = b'f' ∷ b's' ∷ []

-- The kernel starts the first service and no other.
abbrev plane : Plane
plane = record {
  registry = [];
  world = record {
    recvs = [];
    send_rets = [];
    spawn_rets = 5 ∷ [];
    sent = [];
    spawned = [];
    spawned_elfs = [];
  };
}

-- A service that needs the service before it, and is restarted on failure.
abbrev second : ServiceSpec
second = record empty_spec {
  dep_mask = true ∷ replicate 31 false;
  restart_policy = on_failure;
  health_probe = blk_ping;
}

-- Two services; the second depends on the first.
abbrev config : List ℕ
config =
    b'[' ∷ b's' ∷ b'e' ∷ b'r' ∷ b'v' ∷ b'i' ∷ b'c' ∷ b'e' ∷ b'.' ∷ b'a' ∷ b']' ∷ 10 ∷ b'b' ∷ b'i'
    ∷ b'n' ∷ b'a' ∷ b'r' ∷ b'y' ∷ b'=' ∷ b'x' ∷ 10 ∷ b'[' ∷ b's' ∷ b'e' ∷ b'r' ∷ b'v' ∷ b'i' ∷ b'c'
    ∷ b'e' ∷ b'.' ∷ b'b' ∷ b']' ∷ 10 ∷ b'b' ∷ b'i' ∷ b'n' ∷ b'a' ∷ b'r' ∷ b'y' ∷ b'=' ∷ b'y' ∷ 10
    ∷ b'd' ∷ b'e' ∷ b'p' ∷ b'e' ∷ b'n' ∷ b'd' ∷ b's' ∷ b'_' ∷ b'o' ∷ b'n' ∷ b'=' ∷ b'a' ∷ []

abbrev sixteen : List ServiceSpec
sixteen = replicate 16 empty_spec

two_found : (parse_boot_graph config sixteen).1 ≡ 2
unfolding parse_boot_graph lines_onto strip_cr parse_lines clean_line find_byte trim trim_start
    trim_spaces trim_end space_len parse_service_section_name ends_with bytes_eq parse_kv set_key
    finish_spec slice parse_dep_list add_deps split_onto
two_found = refl

parse_boot_graph-IsListed_example :
    ((parse_boot_graph config sixteen).1 ≤ 16)
    × IsListed (spec_at (parse_boot_graph config sixteen).0 1)
parse_boot_graph-IsListed_example =
    parse_boot_graph-IsListed config sixteen 1 (length-replicate 16 empty_spec)
      (omega (arith, two_found))

launch_boot_graph_example :
    let (specs, count) = parse_boot_graph config sixteen in
    (t : Launch) × (launch_graph specs count (replicate 16 empty_runtime) plane ≡ some t)
    × ((was_attempted t 1 ≡ true) ↔ Ready specs count 1 t)
launch_boot_graph_example =
    launch_boot_graph config sixteen plane 1 (length-replicate 16 empty_spec)
      (omega (arith, two_found))

-- A service that has failed twice, and one that was never tried.
abbrev failing : ServiceRuntime
failing = record empty_runtime {
  started = true;
  attempted = true;
  healthy_once = true;
  probe_fail_streak = 2;
}

abbrev third : ServiceSpec
third = record second { restart_policy = always }

abbrev unregistered : ServiceRuntime
unregistered = record empty_runtime { started = true; attempted = true }

failing_stops_example :
    let r1 = after third [] 40 unregistered plane in
    let r2 = after third [] 50 r1 plane in
    let r3 = after third [] 60 r2 plane in
    (r1.started ≡ false) ⊎ ((r2.started ≡ false) ⊎ (r3.started ≡ false))
unfolding probe_service lookup find_first
failing_stops_example =
    failing_stops third [] refl refl 40 50 60 unregistered plane plane plane refl (omega arith)
      (omega arith) (omega arith) refl refl refl
