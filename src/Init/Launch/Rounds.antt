-- ===== src/Init/Launch/Rounds.antt =====
-- What one visit of `launch_graph` to a service, and one round over the services, leave unchanged
-- and what they bring about.
use mene_os.Base.{
  ℕ, ◌<◌, ◌≡◌, ◌⊎◌, inl, inr, refl, ◌∙◌, Bool, true, false, List, set, length, length-set,
  get_or-set_self, get_or-set_ne, ◌==◌, ==_iff, if◌then◌else◌, arith, Bool-cases,
}
use mene_os.Base.Bits.{Mask, bit, missing}
use mene_os.Init.ControlPlane.{Plane}
use mene_os.Init.Services.{ServiceSpec, ServiceRuntime, empty_runtime}
use mene_os.Init.Launch.{Launch, spec_at, runtime_at, attempt, spawned, launch_one}

abbrev pub was_attempted : Launch → ℕ → Bool
was_attempted s j = (runtime_at s.runtime j).attempted

-- The dependencies of service `j` that have not started.
abbrev pub lacks : List ServiceSpec → ℕ → Mask → Bool
lacks specs j mask = missing (spec_at specs j).dep_mask mask

-- What holds between visits: the sizes, an attempted service lacks nothing, and a started one was
-- attempted.
pub record IsLaunch (specs : List ServiceSpec) (size : ℕ) (s : Launch) : Type 0 where
  pub mask_size : length s.started_mask ≡ 64
  pub runtime_size : length s.runtime ≡ size
  pub closed : (j : ℕ) → was_attempted s j ≡ true → lacks specs j s.started_mask ≡ false
  pub started : (j : ℕ) → bit s.started_mask j ≡ true → was_attempted s j ≡ true

-- The three ways of a visit.
pub data Visit (specs : List ServiceSpec) (i : ℕ) (s : Launch) : Launch → Type 0 where
  skip : (bit s.started_mask i ≡ true) ⊎ (lacks specs i s.started_mask ≡ true) → Visit specs i s s
  fail :
      (p : Plane)
      → bit s.started_mask i ≡ false
      → lacks specs i s.started_mask ≡ false
      → Visit specs i s (spawned i (attempt i s) (false, p))
  launch :
      (p : Plane)
      → bit s.started_mask i ≡ false
      → lacks specs i s.started_mask ≡ false
      → Visit specs i s (spawned i (attempt i s) (true, p))

Visit-spawned :
    (specs : List ServiceSpec) (i : ℕ) (s : Launch) (r : Bool × Plane)
    → bit s.started_mask i ≡ false
    → lacks specs i s.started_mask ≡ false
    → Visit specs i s (spawned i (attempt i s) r)
Visit-spawned specs i s (true, p) a b = launch p a b
Visit-spawned specs i s (false, p) a b = fail p a b

pub visit : (specs : List ServiceSpec) (i : ℕ) (s : Launch) → Visit specs i s (launch_one specs i s)
unfolding launch_one
visit specs i s = elim (Bool-cases (bit s.started_mask i)) [
  | inl done ↦ rw done (skip (inl done))
  | inr idle ↦ elim (Bool-cases (lacks specs i s.started_mask)) [
    | inl lacking ↦ rw (idle, lacking) (skip (inr lacking))
    | inr ready ↦ rw (idle, ready) (Visit-spawned specs i s _ idle ready)
  ]
]

-- After an attempt of service `i` that one is attempted, and each other one if it was before.
attempted_set :
    (rt : List ServiceRuntime) (i j : ℕ) (x : ServiceRuntime)
    → i < length rt
    → x.attempted ≡ true
    → (runtime_at (set rt i x) j).attempted ≡ (if i == j then true else (runtime_at rt j).attempted)
attempted_set rt i j x h a = elim (Bool-cases (i == j)) [
  | inl same ↦ rw (same, ← (==_iff i j).0 same, get_or-set_self rt i x empty_runtime h) a
  | inr other ↦
      rw (other, get_or-set_ne rt i j x empty_runtime (λ e. ground (arith, e, other))) refl
]

module _ (specs : List ServiceSpec) (size : ℕ) (i : ℕ) (s : Launch) (v : IsLaunch specs size s)
    (inside : i < size) where
  in_runtime : i < length s.runtime
  in_runtime = omega (arith, v.runtime_size)

  pub attempted_fail :
      (p : Plane) (j : ℕ)
      → was_attempted (spawned i (attempt i s) (false, p)) j
        ≡ (if i == j then true else was_attempted s j)
  attempted_fail p j = attempted_set s.runtime i j _ in_runtime refl

  pub attempted_launch :
      (p : Plane) (j : ℕ)
      → was_attempted (spawned i (attempt i s) (true, p)) j
        ≡ (if i == j then true else was_attempted s j)
  attempted_launch p j =
      let first = record (runtime_at s.runtime i) { attempted = true } in
      let again : i < length (set s.runtime i first) =
        omega (arith, length-set s.runtime i first, in_runtime) in
      let kept : (runtime_at (set s.runtime i first) i).attempted ≡ true =
        rw (get_or-set_self s.runtime i first empty_runtime in_runtime) refl in
      attempted_set (set s.runtime i first) i j _ again kept
      ∙ ground (arith, attempted_set s.runtime i j first in_runtime refl)
