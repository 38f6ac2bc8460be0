-- ===== src/Init/Launch.antt =====
-- apps/init/src/main.rs: `launch_graph`. The loop runs on fuel; 65 rounds are enough, since every
-- round but the last sets one more of the 64 bits of `started_mask`.
pub mod Rounds
pub mod Invariant
pub mod Outcome
use mene_os.Base.{
  ℕ, zero, suc, ◌+◌, ◌-◌, Bool, true, false, not, ◌||◌, List, ◌++◌, Option, none, some, get_or, set,
  replicate, ◌==◌, if◌then◌else◌,
}
use mene_os.Base.Bits.{Mask, bit, set_bit, missing, mask_eq}
use mene_os.Init.ControlPlane.{Plane}
use mene_os.Init.Services.{ServiceSpec, ServiceRuntime, empty_spec, empty_runtime, spawn_service}

abbrev pub spec_at : List ServiceSpec → ℕ → ServiceSpec
spec_at specs i = get_or specs i empty_spec

abbrev pub runtime_at : List ServiceRuntime → ℕ → ServiceRuntime
runtime_at runtime i = get_or runtime i empty_runtime

-- The variables of the loop.
pub record Launch : Type 0 where
  pub runtime : List ServiceRuntime
  pub plane : Plane
  pub started_mask : Mask
  pub progress : Bool

-- (1 << count) - 1
abbrev pub all_mask : ℕ → Mask
all_mask count =
    if count == 32 then replicate 64 true else replicate count true ++ replicate (64 - count) false

abbrev pub attempt : ℕ → Launch → Launch
attempt i s = record s {
  runtime = set s.runtime i (record (runtime_at s.runtime i) { attempted = true });
}

abbrev pub spawned : ℕ → Launch → Bool × Plane → Launch
spawned i s (false, p) = record s { plane = p }
spawned i s (true, p) = record {
  runtime = set s.runtime i (record (runtime_at s.runtime i) { started = true });
  plane = p;
  started_mask = set_bit s.started_mask i;
  progress = true;
}

unfoldable pub launch_one : List ServiceSpec → ℕ → Launch → Launch
launch_one specs i s =
    if bit s.started_mask i
    then s
    else if missing (spec_at specs i).dep_mask s.started_mask
    then s
    else spawned i (attempt i s) (spawn_service (spec_at specs i) s.plane)

-- The inner loop, from `i` over `n` services.
unfoldable pub launch_round : List ServiceSpec → ℕ → ℕ → Launch → Launch
launch_round specs zero i s = s
launch_round specs (suc n) i s = launch_round specs n (i + 1) (launch_one specs i s)

-- `none` when the fuel runs out.
unfoldable pub launch_loop : List ServiceSpec → ℕ → ℕ → Launch → Option Launch
launch_loop specs count zero s = none
launch_loop specs count (suc fuel) s =
    let t = launch_round specs count 0 (record s { progress = false }) in
    let rest = launch_loop specs count fuel t in
    if mask_eq t.started_mask (all_mask count) || not t.progress then some t else rest

abbrev pub rounds : ℕ
rounds = 65

abbrev pub begin_launch : List ServiceRuntime → Plane → Launch
begin_launch runtime plane = record {
  runtime = runtime;
  plane = plane;
  started_mask = replicate 64 false;
  progress = false;
}

unfoldable pub launch_graph : List ServiceSpec → ℕ → List ServiceRuntime → Plane → Option Launch
launch_graph specs count runtime plane = launch_loop specs count rounds (begin_launch runtime plane)
