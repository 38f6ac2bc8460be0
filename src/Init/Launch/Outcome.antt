-- ===== src/Init/Launch/Outcome.antt =====
-- `launch_graph` ends, and attempts exactly the services whose dependencies have all started.
use mene_os.Base.{
  ℕ, zero, suc, ◌≤◌, ◌<◌, ◌≡◌, ◌⊎◌, inl, inr, refl, sym, ◌∙◌, subst, true, false, not, ◌++◌, List,
  some, replicate, ◌==◌, arith, Bool-cases,
}
use mathlib.Core.Bool.{false≢true}
use mene_os.Base.Bits.{Mask, bit, mask_eq, mask_eq→eq, unset}
use mene_os.Init.ControlPlane.{Plane}
use mene_os.Init.Services.{ServiceSpec, empty_runtime}
use mene_os.Init.Launch.{
  Launch, runtime_at, all_mask, launch_round, launch_loop, launch_graph, rounds, begin_launch,
}
use mene_os.Init.Launch.Rounds.{was_attempted, lacks, IsLaunch}
use mene_os.Init.Launch.Invariant.{launch_round-IsLaunch, round_progress, round_settles, Advanced}

bit-replicate : (m : Mask) (n j : ℕ) → j < n → bit (replicate n true ++ m) j ≡ true
bit-replicate m zero j h = elim h [ ]
bit-replicate m (suc n) zero h = refl
bit-replicate m (suc n) (suc j) h = bit-replicate m n j (omega arith)

bit-all_mask : (count j : ℕ) → count ≤ 16 → j < count → bit (all_mask count) j ≡ true
bit-all_mask count j small h =
    let narrow : (count == 32) ≡ false = ground arith in rw narrow (bit-replicate _ count j h)

bit_none : (n j : ℕ) → bit (replicate n false) j ≡ false
bit_none zero j = refl
bit_none (suc n) zero = refl
bit_none (suc n) (suc j) = bit_none n j

fresh : (n j : ℕ) → (runtime_at (replicate n empty_runtime) j).attempted ≡ false
fresh zero j = refl
fresh (suc n) zero = refl
fresh (suc n) (suc j) = fresh n j

-- What `launch_graph` returns: service `j` was attempted exactly if it lacks nothing.
pub record IsDone (specs : List ServiceSpec) (count : ℕ) (t : Launch) : Type 0 where
  pub invariant : IsLaunch specs 16 t
  pub settled : (j : ℕ) → j < count → was_attempted t j ≡ not (lacks specs j t.started_mask)

module _ (specs : List ServiceSpec) (count : ℕ) (small : count ≤ 16) where
  abbrev restarted : Launch → Launch
  restarted s = record s { progress = false }

  restarted-IsLaunch : (s : Launch) → IsLaunch specs 16 s → IsLaunch specs 16 (restarted s)
  restarted-IsLaunch s v = record {
    mask_size = v.mask_size;
    runtime_size = v.runtime_size;
    closed = v.closed;
    started = v.started;
  }

  abbrev after_round : Launch → Launch
  after_round s = launch_round specs count 0 (restarted s)

  after_round-IsLaunch : (s : Launch) → IsLaunch specs 16 s → IsLaunch specs 16 (after_round s)
  after_round-IsLaunch s v =
      launch_round-IsLaunch specs 16 (omega arith) count 0 (restarted s) (restarted-IsLaunch s v)
        (omega arith)

  settle :
      (t : Launch) (j : ℕ)
      → IsLaunch specs 16 t
      → (was_attempted t j ≡ true) ⊎ (lacks specs j t.started_mask ≡ true)
      → was_attempted t j ≡ not (lacks specs j t.started_mask)
  settle t j v h = ground (arith, v.closed j, h)

  full_mask-IsDone :
      (t : Launch)
      → IsLaunch specs 16 t
      → mask_eq t.started_mask (all_mask count) ≡ true
      → IsDone specs count t
  full_mask-IsDone t v e = record {
    invariant = v;
    settled = λ j h. settle t j v (
        inl (
          v.started j
            (rw (mask_eq→eq t.started_mask (all_mask count) e) (bit-all_mask count j small h))));
  }

  no_progress-IsDone :
      (s : Launch)
      → IsLaunch specs 16 s
      → (after_round s).progress ≡ false
      → IsDone specs count (after_round s)
  no_progress-IsDone s v e =
      let r = restarted-IsLaunch s v in
      let same : (after_round s).started_mask ≡ s.started_mask =
        unmoved (restarted s) (after_round s) e
          (round_progress specs 16 (omega arith) count 0 (restarted s) r (omega arith)) in
      record {
        invariant = after_round-IsLaunch s v;
        settled = λ j h. settle (after_round s) j (after_round-IsLaunch s v) (
            subst (λ m. (was_attempted (after_round s) j ≡ true) ⊎ (lacks specs j m ≡ true))
              (sym same)
              (round_settles specs 16 (omega arith) count 0 j (restarted s) r (omega arith) same
                (omega arith) (omega arith)));
      }
    where
      unmoved : (a b : Launch) → b.progress ≡ false → Advanced a b → b.started_mask ≡ a.started_mask
      unmoved a b p (inl (x, y)) = x
      unmoved a b p (inr (x, y)) = cc (p, y)

  fewer :
      (a b : Launch)
      → a.progress ≡ false
      → b.progress ≡ true
      → Advanced a b
      → unset b.started_mask < unset a.started_mask
  fewer a b p q (inl (x, y)) = cc (p, q, y)
  fewer a b p q (inr (x, y)) = x

  loop_ends :
      (fuel : ℕ) (s : Launch)
      → IsLaunch specs 16 s
      → unset s.started_mask < fuel
      → (t : Launch) × (launch_loop specs count fuel s ≡ some t) × IsDone specs count t
  unfolding launch_loop
  loop_ends zero s v h = absurd (omega arith)
  loop_ends (suc fuel) s v h =
      elim (Bool-cases (mask_eq (after_round s).started_mask (all_mask count))) [
        | inl full ↦ (
          after_round s,
          rw full,
          full_mask-IsDone (after_round s) (after_round-IsLaunch s v) full,
        )
        | inr part ↦ elim (Bool-cases (after_round s).progress) [
          | inr stuck ↦ (after_round s, rw (part, stuck), no_progress-IsDone s v stuck)
          | inl moved ↦
              let less = fewer (restarted s) (after_round s) refl moved (
                round_progress specs 16 (omega arith) count 0 (restarted s) (restarted-IsLaunch s v)
                  (omega arith)) in
              simp (part, moved)
                (loop_ends fuel (after_round s) (after_round-IsLaunch s v) (omega (arith, less)))
        ]
      ]

IsLaunch-begin :
    (specs : List ServiceSpec) (plane : Plane)
    → IsLaunch specs 16 (begin_launch (replicate 16 empty_runtime) plane)
IsLaunch-begin specs plane = record {
  mask_size = refl;
  runtime_size = refl;
  closed = λ j a. absurd (false≢true (sym (fresh 16 j) ∙ a));
  started = λ j b. absurd (false≢true (sym (bit_none 64 j) ∙ b));
}

pub launch_graph_ends :
    (specs : List ServiceSpec) (count : ℕ) (plane : Plane)
    → count ≤ 16
    → (t : Launch) × (launch_graph specs count (replicate 16 empty_runtime) plane ≡ some t)
      × IsDone specs count t
unfolding launch_graph
launch_graph_ends specs count plane small =
    loop_ends specs count small rounds (begin_launch (replicate 16 empty_runtime) plane)
      (IsLaunch-begin specs plane) (unfold unset in omega arith)

-- For at most 16 services, whatever the spawns and the messages in between return,
-- `launch_graph` on a fresh run-time table ends within its fuel, and it has then attempted service
-- `j` exactly if every dependency in the mask of `j` has started.
pub launch_graph_attempts :
    (specs : List ServiceSpec) (count : ℕ) (plane : Plane) (j : ℕ)
    → count ≤ 16
    → j < count
    → (t : Launch) × (launch_graph specs count (replicate 16 empty_runtime) plane ≡ some t)
      × (was_attempted t j ≡ not (lacks specs j t.started_mask))
launch_graph_attempts specs count plane j small inside =
    let (t, ends, finished) = launch_graph_ends specs count plane small in
    (t, ends, finished.settled j inside)
