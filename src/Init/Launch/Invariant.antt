-- ===== src/Init/Launch/Invariant.antt =====
-- The invariant of `launch_graph` over visits and rounds, and what a round without progress shows.
use mene_os.Base.{
  ℕ, zero, suc, ◌+◌, ◌≤◌, ◌<◌, ◌≡◌, ◌⊎◌, inl, inr, refl, sym, ◌∙◌, ap, subst, true, false, List,
  set, length, length-set, get_or-set_self, get_or-set_ne, ◌==◌, ==_iff, if◌then◌else◌, arith,
  Bool-cases,
}
use mene_os.Base.Bits.{Mask, bit, set_bit, missing-set_bit, unset, unset-set_bit}
use mene_os.Init.Services.{ServiceSpec}
use mene_os.Init.Launch.{Launch, spec_at, launch_one, launch_round}
use mene_os.Init.Launch.Rounds.{
  was_attempted, lacks, IsLaunch, Visit, skip, fail, launch, visit, attempted_fail,
  attempted_launch,
}

bit-set_bit :
    (m : Mask) (i j : ℕ) → i < length m → bit (set_bit m i) j ≡ (if i == j then true else bit m j)
bit-set_bit m i j h = elim (Bool-cases (i == j)) [
  | inl same ↦ rw (same, ← (==_iff i j).0 same) (get_or-set_self m i true false h)
  | inr other ↦ rw other (get_or-set_ne m i j true false (λ e. ground (arith, e, other)))
]

-- A visit sets no bit and leaves `progress`, or sets one bit and makes progress; a round the
-- same, with any number of bits.
abbrev pub Visited : Launch → Launch → Type 0
Visited s t =
    ((t.started_mask ≡ s.started_mask) × (t.progress ≡ s.progress))
    ⊎ ((unset t.started_mask + 1 ≡ unset s.started_mask) × (t.progress ≡ true))

abbrev pub Advanced : Launch → Launch → Type 0
Advanced s t =
    ((t.started_mask ≡ s.started_mask) × (t.progress ≡ s.progress))
    ⊎ ((unset t.started_mask < unset s.started_mask) × (t.progress ≡ true))

join : (s u t : Launch) → Visited s u → Advanced u t → Advanced s t
join s u t (inl (a, b)) (inl (c, d)) = inl (c ∙ a, d ∙ b)
join s u t (inl (a, b)) (inr (c, d)) = inr (omega (arith, c, ap unset a), d)
join s u t (inr (a, b)) (inl (c, d)) = inr (omega (arith, a, ap unset c), d ∙ b)
join s u t (inr (a, b)) (inr (c, d)) = inr (omega (arith, a, c), d)

quiet :
    (s u t : Launch)
    → t.started_mask ≡ s.started_mask
    → Visited s u
    → Advanced u t
    → u.started_mask ≡ s.started_mask
quiet s u t e (inl (a, b)) r = a
quiet s u t e (inr (a, b)) (inl (c, d)) = absurd (omega (arith, a, ap unset c, ap unset e))
quiet s u t e (inr (a, b)) (inr (c, d)) = absurd (omega (arith, a, c, ap unset e))

module _ (specs : List ServiceSpec) (size : ℕ) (small : size ≤ 64) where
  Visit-IsLaunch :
      (i : ℕ) (s : Launch) {t : Launch}
      → Visit specs i s t
      → IsLaunch specs size s
      → i < size
      → IsLaunch specs size t
  Visit-IsLaunch i s (skip h) v inside = v
  Visit-IsLaunch i s (fail p idle ready) v inside = record {
    mask_size = v.mask_size;
    runtime_size = length-set s.runtime i _ ∙ v.runtime_size;
    closed = λ j a.
        ground
          (arith, attempted_fail specs size i s v inside p j, (==_iff i j).0, v.closed j, ready, a);
    started = λ j b. ground (arith, attempted_fail specs size i s v inside p j, v.started j b);
  }
  Visit-IsLaunch i s (launch p idle ready) v inside =
      let in_mask : i < length s.started_mask = omega (arith, v.mask_size) in
      record {
        mask_size = length-set s.started_mask i true ∙ v.mask_size;
        runtime_size =
            length-set (set s.runtime i _) i _ ∙ (length-set s.runtime i _ ∙ v.runtime_size);
        closed = λ j a. missing-set_bit (spec_at specs j).dep_mask s.started_mask i (
            ground (
              arith,
              attempted_launch specs size i s v inside p j,
              (==_iff i j).0,
              v.closed j,
              ready,
              a,
            ));
        started = λ j b. ground (
          arith,
          attempted_launch specs size i s v inside p j,
          bit-set_bit s.started_mask i j in_mask,
          v.started j,
          b,
        );
      }

  pub launch_one-IsLaunch :
      (i : ℕ) (s : Launch)
      → IsLaunch specs size s
      → i < size
      → IsLaunch specs size (launch_one specs i s)
  launch_one-IsLaunch i s v inside = Visit-IsLaunch i s (visit specs i s) v inside

  pub launch_round-IsLaunch :
      (n i : ℕ) (s : Launch)
      → IsLaunch specs size s
      → i + n ≤ size
      → IsLaunch specs size (launch_round specs n i s)
  unfolding launch_round
  launch_round-IsLaunch zero i s v h = v
  launch_round-IsLaunch (suc n) i s v h =
      launch_round-IsLaunch n (i + 1) (launch_one specs i s)
        (launch_one-IsLaunch i s v (omega arith)) (omega arith)

  -- A visit keeps what was attempted.
  Visit-keeps :
      (i j : ℕ) (s : Launch) {t : Launch}
      → Visit specs i s t
      → IsLaunch specs size s
      → i < size
      → was_attempted s j ≡ true
      → was_attempted t j ≡ true
  Visit-keeps i j s (skip h) v inside a = a
  Visit-keeps i j s (fail p idle ready) v inside a =
      ground (arith, attempted_fail specs size i s v inside p j, a)
  Visit-keeps i j s (launch p idle ready) v inside a =
      ground (arith, attempted_launch specs size i s v inside p j, a)

  -- A visit sets no bit and leaves `progress`, or sets one bit and makes progress.
  Visit-progress :
      (i : ℕ) (s : Launch) {t : Launch}
      → Visit specs i s t
      → IsLaunch specs size s
      → i < size
      → Visited s t
  Visit-progress i s (skip h) v inside = inl (refl, refl)
  Visit-progress i s (fail p idle ready) v inside = inl (refl, refl)
  Visit-progress i s (launch p idle ready) v inside =
      inr (unset-set_bit s.started_mask i (omega (arith, v.mask_size)) idle, refl)

  -- After a visit the service was attempted or lacks a dependency.
  Visit-settles :
      (i : ℕ) (s : Launch) {t : Launch}
      → Visit specs i s t
      → IsLaunch specs size s
      → i < size
      → (was_attempted t i ≡ true) ⊎ (lacks specs i s.started_mask ≡ true)
  Visit-settles i s (skip (inl b)) v inside = inl (v.started i b)
  Visit-settles i s (skip (inr l)) v inside = inr l
  Visit-settles i s (fail p idle ready) v inside =
      inl (ground (arith, attempted_fail specs size i s v inside p i))
  Visit-settles i s (launch p idle ready) v inside =
      inl (ground (arith, attempted_launch specs size i s v inside p i))

  pub round_keeps :
      (n i j : ℕ) (s : Launch)
      → IsLaunch specs size s
      → i + n ≤ size
      → was_attempted s j ≡ true
      → was_attempted (launch_round specs n i s) j ≡ true
  unfolding launch_round
  round_keeps zero i j s v h a = a
  round_keeps (suc n) i j s v h a =
      let inside : i < size = omega arith in
      round_keeps n (i + 1) j (launch_one specs i s) (launch_one-IsLaunch i s v inside)
        (omega arith) (Visit-keeps i j s (visit specs i s) v inside a)

  -- A round makes no progress and sets no bit, or makes progress and sets some.
  pub round_progress :
      (n i : ℕ) (s : Launch)
      → IsLaunch specs size s
      → i + n ≤ size
      → Advanced s (launch_round specs n i s)
  unfolding launch_round
  round_progress zero i s v h = inl (refl, refl)
  round_progress (suc n) i s v h =
      let inside : i < size = omega arith in
      let u = launch_one specs i s in
      join s u (launch_round specs n (i + 1) u) (Visit-progress i s (visit specs i s) v inside)
        (round_progress n (i + 1) u (launch_one-IsLaunch i s v inside) (omega arith))

  -- In a round without progress every service that is visited was attempted by its end or lacks
  -- a dependency.
  pub round_settles :
      (n i j : ℕ) (s : Launch)
      → IsLaunch specs size s
      → i + n ≤ size
      → (launch_round specs n i s).started_mask ≡ s.started_mask
      → i ≤ j
      → j < i + n
      → (was_attempted (launch_round specs n i s) j ≡ true) ⊎ (lacks specs j s.started_mask ≡ true)
  unfolding launch_round
  round_settles zero i j s v h same lo hi = absurd (omega arith)
  round_settles (suc n) i j s v h same lo hi =
      let inside : i < size = omega arith in
      let w = launch_one-IsLaunch i s v inside in
      let rest = round_progress n (i + 1) (launch_one specs i s) w (omega arith) in
      let still : (launch_one specs i s).started_mask ≡ s.started_mask =
        quiet s (launch_one specs i s) (launch_round specs n (i + 1) (launch_one specs i s)) same
          (Visit-progress i s (visit specs i s) v inside) rest in
      elim (Bool-cases (i == j)) [
        | inl here ↦
            let e : i ≡ j = (==_iff i j).0 here in
            elim (Visit-settles i s (visit specs i s) v inside) [
              | inl a ↦ inl (
                  round_keeps n (i + 1) j (launch_one specs i s) w (omega arith)
                    (subst (λ k. was_attempted (launch_one specs i s) k ≡ true) e a))
              | inr l ↦ inr (subst (λ k. lacks specs k s.started_mask ≡ true) e l)
            ]
        | inr later ↦
            subst
              (λ m.
                (was_attempted (launch_round specs n (i + 1) (launch_one specs i s)) j ≡ true)
                ⊎ (lacks specs j m ≡ true))
              still
              (round_settles n (i + 1) j (launch_one specs i s) w (omega arith) (same ∙ sym still)
                (ground (arith, later)) (omega arith))
      ]
