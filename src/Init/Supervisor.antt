-- ===== src/Init/Supervisor.antt =====
-- apps/init/src/main.rs: `supervisor_tick` and the loop that drives it, `control_plane_loop`.
pub mod Restarts
pub mod Failing
use mene_os.Base.{
  ℕ, zero, suc, ◌+◌, ◌-◌, ◌%◌, ◌^◌, min, Bool, true, false, not, ◌&&◌, ◌||◌, List, [], ◌∷◌, Option,
  none, some, get_or, set, take, replicate, ltb, leb, ◌==◌, if◌then◌else◌,
}
use mene_os.Base.Bits.{Mask, set_bit, missing}
use mene_os.Ulib.World.{World}
use mene_os.Ulib.Ipc.{Recv, sys_ipc_send, sys_ipc_recv_timeout}
use mene_os.Abi.Handle.{serial_endpoint}
use mene_os.Init.ControlPlane.{Plane, handle_control_plane_msg}
use mene_os.Init.Services.{
  ServiceSpec, ServiceRuntime, RestartPolicy, always, on_failure, one_shot, HealthProbe, no_probe,
  spawn_service, probe_service,
}
use mene_os.Init.Launch.{spec_at, runtime_at}

abbrev pub probe_interval : ℕ
probe_interval = 10

abbrev pub saturating_add : ℕ → ℕ → ℕ
saturating_add a b = min (a + b) (2 ^ 64 - 1)

abbrev pub saturating_add_u8 : ℕ → ℕ → ℕ
saturating_add_u8 a b = min (a + b) 255

abbrev pub is_one_shot : RestartPolicy → Bool
is_one_shot one_shot = true
is_one_shot _ = false

abbrev pub is_no_probe : HealthProbe → Bool
is_no_probe no_probe = true
is_no_probe _ = false

-- The message of `sys_log` after a restart.
abbrev pub restart_text : List ℕ
restart_text =
    b'i' ∷ b'n' ∷ b'i' ∷ b't' ∷ b':' ∷ b' ' ∷ b's' ∷ b'u' ∷ b'p' ∷ b'e' ∷ b'r' ∷ b'v' ∷ b'i' ∷ b's'
    ∷ b'o' ∷ b'r' ∷ b' ' ∷ b'r' ∷ b'e' ∷ b's' ∷ b't' ∷ b'a' ∷ b'r' ∷ b't' ∷ b'i' ∷ b'n' ∷ b'g'
    ∷ b' ' ∷ b'u' ∷ b'n' ∷ b'h' ∷ b'e' ∷ b'a' ∷ b'l' ∷ b't' ∷ b'h' ∷ b'y' ∷ b' ' ∷ b's' ∷ b'e'
    ∷ b'r' ∷ b'v' ∷ b'i' ∷ b'c' ∷ b'e' ∷ []

-- The first loop of `supervisor_tick`, from `i` over `n` services.
unfoldable pub started_from : ℕ → ℕ → List ServiceRuntime → Mask → Mask
started_from zero i runtime mask = mask
started_from (suc n) i runtime mask =
    started_from n (i + 1) runtime (if (runtime_at runtime i).started then set_bit mask i else mask)

unfoldable pub started_mask : ℕ → List ServiceRuntime → Mask
started_mask count runtime = started_from count 0 runtime (replicate 32 false)

-- One service of the second loop: its run-time state and the plane.
abbrev pub retried : ServiceRuntime → Bool × Plane → ServiceRuntime × Plane
retried r (true, p) = (record r { attempted = true; started = true }, p)
retried r (false, p) = (record r { attempted = true }, p)

unfoldable pub tick_stopped :
    ℕ → ServiceSpec → Mask → ServiceRuntime → Plane → ServiceRuntime × Plane
tick_stopped tick spec mask r p =
    if is_one_shot spec.restart_policy && r.attempted
    then (r, p)
    else if not (missing spec.dep_mask mask) && leb r.next_retry_tick tick
    then retried r (spawn_service spec p)
    else (r, p)

unfoldable pub must_restart : RestartPolicy → Bool → ℕ → Bool
must_restart always healthy_once streak = leb 3 streak
must_restart on_failure healthy_once streak = healthy_once && leb 3 streak
must_restart one_shot healthy_once streak = false

abbrev pub log : List ℕ → Plane → Plane
log msg p = record p { world = sys_ipc_send serial_endpoint msg none p.world }

-- `tick + 10` wraps as in a release build.
abbrev pub restart : ℕ → ServiceRuntime → ServiceRuntime
restart tick r = record r {
  started = false;
  healthy_once = false;
  probe_fail_streak = 0;
  next_probe_tick = saturating_add tick probe_interval;
  next_retry_tick = (tick + 10) % 2 ^ 64;
}

unfoldable pub probed : ℕ → ServiceSpec → ServiceRuntime → Bool × Plane → ServiceRuntime × Plane
probed tick spec r (true, p) = (record r { healthy_once = true; probe_fail_streak = 0 }, p)
probed tick spec r (false, p) =
    let streak = saturating_add_u8 r.probe_fail_streak 1 in
    let r' : ServiceRuntime = record r { probe_fail_streak = streak } in
    if must_restart spec.restart_policy r.healthy_once streak
    then (restart tick r', log restart_text p)
    else (r', p)

unfoldable pub tick_running : ℕ → ServiceSpec → ServiceRuntime → Plane → ServiceRuntime × Plane
tick_running tick spec r p =
    if is_one_shot spec.restart_policy || is_no_probe spec.health_probe
    then (r, p)
    else if ltb tick r.next_probe_tick
    then (r, p)
    else probed tick spec (record r { next_probe_tick = saturating_add tick probe_interval })
        (probe_service spec p)

unfoldable pub tick_service :
    ℕ → ServiceSpec → Mask → ServiceRuntime → Plane → ServiceRuntime × Plane
tick_service tick spec mask r p =
    if r.started then tick_running tick spec r p else tick_stopped tick spec mask r p

-- The second loop, from `i` over `n` services.
unfoldable pub tick_from :
    ℕ → List ServiceSpec → Mask → ℕ → ℕ → List ServiceRuntime → Plane → List ServiceRuntime × Plane
tick_from tick specs mask zero i runtime p = (runtime, p)
tick_from tick specs mask (suc n) i runtime p =
    let (r, p') = tick_service tick (spec_at specs i) mask (runtime_at runtime i) p in
    tick_from tick specs mask n (i + 1) (set runtime i r) p'

unfoldable pub supervisor_tick :
    ℕ → List ServiceSpec → ℕ → List ServiceRuntime → Plane → List ServiceRuntime × Plane
supervisor_tick tick specs count runtime p =
    tick_from tick specs (started_mask count runtime) count 0 runtime p

-- One round of `control_plane_loop`.
abbrev pub take_control : Recv → Plane → Plane
take_control r p = elim r.result [
  | none ↦ p
  | some n ↦
      if n == 0 then p else (handle_control_plane_msg r.from_pid (take n r.buf) r.recv_cap p).1
]

unfoldable pub control_plane_round :
    List ServiceSpec → ℕ → ℕ × List ServiceRuntime × Plane → ℕ × List ServiceRuntime × Plane
control_plane_round specs count (tick, runtime, p) =
    let (r, w) = sys_ipc_recv_timeout p.world in
    let p' : Plane = take_control r (record p { world = w }) in
    let next = saturating_add tick 1 in
    let (runtime', q) = supervisor_tick next specs count runtime p' in (next, runtime', q)
