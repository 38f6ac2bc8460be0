-- ===== src/Init/Supervisor/Restarts.antt =====
-- When the supervisor restarts a service, and when it starts one.
use mene_os.Base.{ℕ, ◌≤◌, ◌≡◌, Bool, true, false, ◌&&◌, arith}
use mene_os.Base.Bits.{Mask, missing}
use mene_os.Init.ControlPlane.{Plane}
use mene_os.Init.Services.{
  ServiceSpec, ServiceRuntime, RestartPolicy, always, on_failure, one_shot, spawn_service,
}
use mene_os.Init.Supervisor.{is_one_shot, tick_service, tick_stopped}

-- With this policy a service may be restarted at its next failure, given whether it was healthy
-- and how many probes in a row have failed.
abbrev pub MayRestart : RestartPolicy → Bool → ℕ → Type 0
MayRestart always healthy_once streak = 2 ≤ streak
MayRestart on_failure healthy_once streak = (healthy_once ≡ true) × (2 ≤ streak)
MayRestart one_shot healthy_once streak = ⊥

-- A tick starts a stopped service only if the spawn succeeds, no dependency in its mask is
-- missing from the mask of started services, its retry is due, and it is not a `OneShot` service
-- that was attempted before.
pub tick_starts :
    (tick : ℕ) (spec : ServiceSpec) (mask : Mask) (r : ServiceRuntime) (p : Plane)
    → r.started ≡ false
    → (tick_service tick spec mask r p).0.started ≡ true
    → ((spawn_service spec p).0 ≡ true)
      × (missing spec.dep_mask mask ≡ false)
      × (r.next_retry_tick ≤ tick)
      × ((is_one_shot spec.restart_policy && r.attempted) ≡ false)
unfolding tick_service tick_stopped
tick_starts tick spec mask r p s h = ground arith
