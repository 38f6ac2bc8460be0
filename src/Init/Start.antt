-- ===== src/Init/Start.antt =====
-- apps/init/src/main.rs, `_start`: up to the loop of the control plane. `cfg` is the part of the
-- buffer that `sys_get_boot_cfg` filled.
use mene_os.Base.{
  ℕ, ◌≤◌, ◌≡◌, refl, ap, List, [], ◌∷◌, ◌++◌, Option, none, some, arith, length, replicate,
  length-replicate, ◌==◌, if◌then◌else◌, Bool-cases, inl, inr,
}
use mene_os.Base.Utf8.{is_utf8}
use mene_os.Ulib.World.{World}
use mene_os.Init.Registry.{register, new}
use mene_os.Init.ControlPlane.{Plane}
use mene_os.Init.Services.{ServiceSpec, ServiceRuntime, empty_spec, empty_runtime}
use mene_os.Init.Launch.{Launch, launch_graph}
use mene_os.Init.Launch.Outcome.{launch_graph_ends}
use mene_os.Init.Supervisor.{log}
use mene_os.Init.BootGraph.{parse_boot_graph}
use mene_os.Init.BootGraph.Valid.{parsed-IsParse}

-- b"init", b"device_manager"
abbrev init_name : List ℕ
init_name = b'i' ∷ b'n' ∷ b'i' ∷ b't' ∷ []

abbrev device_manager_name : List ℕ
device_manager_name =
    b'd' ∷ b'e' ∷ b'v' ∷ b'i' ∷ b'c' ∷ b'e' ∷ b'_' ∷ b'm' ∷ b'a' ∷ b'n' ∷ b'a' ∷ b'g' ∷ b'e' ∷ b'r'
    ∷ []

-- "init: control plane started", "init: missing boot cfg",
-- "init: boot graph launched, supervisor running"
abbrev init_text : List ℕ
init_text = init_name ++ b':' ∷ b' ' ∷ []

abbrev started_text : List ℕ
started_text =
    init_text
    ++ b'c' ∷ b'o' ∷ b'n' ∷ b't' ∷ b'r' ∷ b'o' ∷ b'l' ∷ b' ' ∷ b'p' ∷ b'l' ∷ b'a' ∷ b'n' ∷ b'e'
      ∷ b' ' ∷ b's' ∷ b't' ∷ b'a' ∷ b'r' ∷ b't' ∷ b'e' ∷ b'd' ∷ []

abbrev missing_text : List ℕ
missing_text =
    init_text
    ++ b'm' ∷ b'i' ∷ b's' ∷ b's' ∷ b'i' ∷ b'n' ∷ b'g' ∷ b' ' ∷ b'b' ∷ b'o' ∷ b'o' ∷ b't' ∷ b' '
      ∷ b'c' ∷ b'f' ∷ b'g' ∷ []

abbrev launched_text : List ℕ
launched_text =
    init_text
    ++ b'b' ∷ b'o' ∷ b'o' ∷ b't' ∷ b' ' ∷ b'g' ∷ b'r' ∷ b'a' ∷ b'p' ∷ b'h' ∷ b' ' ∷ b'l' ∷ b'a'
      ∷ b'u' ∷ b'n' ∷ b'c' ∷ b'h' ∷ b'e' ∷ b'd' ∷ b',' ∷ b' ' ∷ b's' ∷ b'u' ∷ b'p' ∷ b'e' ∷ b'r'
      ∷ b'v' ∷ b'i' ∷ b's' ∷ b'o' ∷ b'r' ∷ b' ' ∷ b'r' ∷ b'u' ∷ b'n' ∷ b'n' ∷ b'i' ∷ b'n' ∷ b'g'
      ∷ []

abbrev first_plane : World → Plane
first_plane w = log started_text (record {
  registry = (register device_manager_name 1 1 (register init_name 1 1 new).1).1;
  world = w;
})

abbrev read_graph : List ℕ → List ServiceSpec × ℕ
read_graph cfg =
    if is_utf8 cfg
    then parse_boot_graph cfg (replicate 16 empty_spec)
    else (replicate 16 empty_spec, 0)

-- What the loop of the control plane starts with: the services, their number, their run-time table
-- and the control plane.
abbrev pub Running : Type 0
Running = List ServiceSpec × ℕ × List ServiceRuntime × Plane

abbrev launched : List ServiceSpec × ℕ → Option Launch → Option Running
launched graph none = none
launched (specs, count) (some t) = some (specs, count, t.runtime, log launched_text t.plane)

-- `none` when the loop of the launch runs out of fuel.
unfoldable pub start : List ℕ → World → Option Running
start cfg w =
    let runtime = replicate 16 empty_runtime in
    let plane = first_plane w in
    let graph = read_graph cfg in
    if length cfg == 0
    then some (replicate 16 empty_spec, 0, runtime, log missing_text plane)
    else launched graph (launch_graph graph.0 graph.1 runtime plane)

parse_boot_graph_fits :
    (cfg : List ℕ) (out : List ServiceSpec) → length out ≡ 16 → (parse_boot_graph cfg out).1 ≤ 16
unfolding parse_boot_graph
parse_boot_graph_fits cfg out h = (parsed-IsParse cfg out h).fits

read_graph_fits : (cfg : List ℕ) → (read_graph cfg).1 ≤ 16
read_graph_fits cfg = elim (Bool-cases (is_utf8 cfg)) [
  | inl text ↦
      rw text (parse_boot_graph_fits cfg (replicate 16 empty_spec) (length-replicate 16 empty_spec))
  | inr other ↦ rw other (omega arith)
]

-- Whatever the boot configuration is, even if it is empty or no text, and whatever the spawns and
-- the messages return, `_start` gets to the loop of the control plane, with at most 16 services.
pub start_ends : (cfg : List ℕ) (w : World) → (r : Running) × (start cfg w ≡ some r) × (r.1 ≤ 16)
unfolding start
start_ends cfg w = elim (Bool-cases (length cfg == 0)) [
  | inl empty ↦ (
    (replicate 16 empty_spec, 0, replicate 16 empty_runtime, log missing_text (first_plane w)),
    rw empty refl,
    omega arith,
  )
  | inr some_bytes ↦
      let graph = read_graph cfg in
      let fits = read_graph_fits cfg in
      let (t, ends, done) = launch_graph_ends graph.0 graph.1 (first_plane w) fits in
      (
        (graph.0, graph.1, t.runtime, log launched_text t.plane),
        rw some_bytes (ap (launched graph) ends),
        fits,
      )
]
