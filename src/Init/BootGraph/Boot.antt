-- ===== src/Init/BootGraph/Boot.antt =====
-- apps/init/src/main.rs, `_start`: the boot graph is parsed, and what was parsed is launched.
use mene_os.Base.{ℕ, ◌<◌, ◌≡◌, ◌↔◌, ◌∙◌, ap, true, not, List, some, arith, length, replicate}
use mene_os.Base.Bits.{bit, missing_iff}
use mene_os.Init.ControlPlane.{Plane}
use mene_os.Init.Services.{ServiceSpec, empty_runtime}
use mene_os.Init.Launch.{Launch, launch_graph}
use mene_os.Init.Launch.Rounds.{was_attempted}
use mene_os.Init.Launch.Outcome.{launch_graph_attempts}
use mene_os.Init.BootGraph.{parse_boot_graph, resolve_dep_mask}
use mene_os.Init.BootGraph.Valid.{parsed, parsed-IsParse}
use mene_os.Init.BootGraph.Names.{spec_at}
use mene_os.Init.BootGraph.Dependencies.{DependsOn, resolve_dep_mask_iff}

-- Every service that service `j` depends on has started.
pub Ready : List ServiceSpec → ℕ → ℕ → Launch → Type 0
Ready specs count j t =
    (k : ℕ)
    → DependsOn specs count (spec_at specs j) 0 (spec_at specs j).dep_count k
    → bit t.started_mask k ≡ true

-- Whatever the text of the boot configuration is, and whatever the spawns and the messages return,
-- launching the services that `parse_boot_graph` finds in it ends, and service `j` was then
-- attempted exactly if each service that `j` depends on by name has started.
pub launch_boot_graph :
    (config : List ℕ) (out : List ServiceSpec) (plane : Plane) (j : ℕ)
    → length out ≡ 16
    → j < (parse_boot_graph config out).1
    → let (specs, count) = parse_boot_graph config out in
      (t : Launch) × (launch_graph specs count (replicate 16 empty_runtime) plane ≡ some t)
      × ((was_attempted t j ≡ true) ↔ Ready specs count j t)
unfolding parse_boot_graph Ready
launch_boot_graph config out plane j size inside =
    let p = parsed-IsParse config out size in
    let s = parsed config out in
    let specs = resolve_dep_mask s.out s.count in
    let (t, ends, attempts) = launch_graph_attempts specs s.count plane j p.fits inside in
    let (to, back) = missing_iff (spec_at specs j).dep_mask t.started_mask in
    let depends : (k : ℕ)
        → (bit (spec_at specs j).dep_mask k ≡ true)
          ↔ DependsOn specs s.count (spec_at specs j) 0 (spec_at specs j).dep_count k =
      λ k.
        resolve_dep_mask_iff s.out s.count j k (omega (arith, p.fits, p.size))
          (omega (arith, p.fits)) inside in
    (
      t,
      ends,
      (
        λ a k d. to (ground (arith, a, attempts)) k ((depends k).1 d),
        λ ready. attempts ∙ ap not (back (λ k b. ready k ((depends k).0 b))),
      ),
    )
