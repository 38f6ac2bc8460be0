-- ===== src/Init/Supervisor/Failing.antt =====
-- A running service whose probe keeps failing.
use mene_os.Base.{ℕ, ◌+◌, ◌≤◌, ◌<◌, ◌≡◌, ◌⊎◌, inl, inr, refl, Bool, true, false, arith, leb}
use mene_os.Base.Bits.{Mask}
use mene_os.Init.ControlPlane.{Plane}
use mene_os.Init.Services.{ServiceSpec, ServiceRuntime, RestartPolicy, always, probe_service}
use mene_os.Init.Supervisor.{
  is_one_shot, is_no_probe, tick_service, tick_running, probed, must_restart, saturating_add_u8,
  probe_interval,
}

always-must_restart :
    (policy : RestartPolicy) (h : Bool) (streak : ℕ)
    → policy ≡ always
    → (must_restart policy h streak ≡ leb 3 streak) × (is_one_shot policy ≡ false)
unfolding must_restart
always-must_restart policy h streak e = rw e (refl, refl)

module _ (spec : ServiceSpec) (mask : Mask) where
  abbrev pub after : ℕ → ServiceRuntime → Plane → ServiceRuntime
  after tick r p = (tick_service tick spec mask r p).0

  module _ (policy : spec.restart_policy ≡ always)
      (probing : is_no_probe spec.health_probe ≡ false) where
    -- One tick that is due and whose probe fails stops the service or counts one more failure.
    failing_tick :
        (tick : ℕ) (r : ServiceRuntime) (p : Plane)
        → r.started ≡ true
        → r.next_probe_tick ≤ tick
        → (probe_service spec p).0 ≡ false
        → ((after tick r p).started ≡ false)
          ⊎ (((after tick r p).started ≡ true)
              × (r.probe_fail_streak + 1 ≤ (after tick r p).probe_fail_streak)
              × ((after tick r p).probe_fail_streak < 3)
              × ((after tick r p).next_probe_tick ≤ tick + probe_interval))
    unfolding tick_service tick_running probed
    failing_tick tick r p s due fails =
        let w =
          always-must_restart spec.restart_policy r.healthy_once
            (saturating_add_u8 r.probe_fail_streak 1) policy in
        ground (arith, w)

    -- A running service with the policy `Always` and a probe, whatever its other state is: of three
    -- ticks one after the other, the first due and each later one at least ten ticks after the one
    -- before, whose probes all fail, one stops it.
    pub failing_stops :
        (t1 t2 t3 : ℕ) (r : ServiceRuntime) (p1 p2 p3 : Plane)
        → r.started ≡ true
        → r.next_probe_tick ≤ t1
        → t1 + probe_interval ≤ t2
        → t2 + probe_interval ≤ t3
        → (probe_service spec p1).0 ≡ false
        → (probe_service spec p2).0 ≡ false
        → (probe_service spec p3).0 ≡ false
        → let r1 = after t1 r p1 in
          let r2 = after t2 r1 p2 in
          let r3 = after t3 r2 p3 in
          (r1.started ≡ false) ⊎ ((r2.started ≡ false) ⊎ (r3.started ≡ false))
    failing_stops t1 t2 t3 r p1 p2 p3 s due later latest f1 f2 f3 =
        let r1 = after t1 r p1 in
        let r2 = after t2 r1 p2 in
        elim (failing_tick t1 r p1 s due f1) [
          | inl stopped ↦ inl stopped
          | inr (s1, n1, m1, d1) ↦ elim (failing_tick t2 r1 p2 s1 (omega (arith, d1, later)) f2) [
            | inl stopped ↦ inr (inl stopped)
            | inr (s2, n2, m2, d2) ↦
                elim (failing_tick t3 r2 p3 s2 (omega (arith, d2, latest)) f3) [
                  | inl stopped ↦ inr (inr stopped)
                  | inr (s3, n3, m3, d3) ↦ absurd (omega (arith, n1, n2, n3, m3))
                ]
          ]
        ]
