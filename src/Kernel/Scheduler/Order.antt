-- ===== src/Kernel/Scheduler/Order.antt =====
-- A control plane that starts only what `get_ready_services` names: a service that was started
-- has its dependencies running.
use mene_os.Base.{
  ℕ, zero, suc, ◌≡◌, ◌≢◌, refl, sym, ◌∙◌, ap, subst, List, [], ◌∷◌, some, arith, get_elem?, inl,
  inr, true, ◌==◌, Bool-cases, if◌then◌else◌,
}
use mene_os.Kernel.Scheduler.{
  ServiceState, starting, running, failed, ServiceNode, Graph, modify_at, with_state, mark_starting,
  mark_running, mark_failed, get_ready_services,
}
use mene_os.Kernel.Scheduler.Ready.{
  IsGraph, contains, IsRunning, AllRunning, get_ready_services_iff,
}
use mene_os.Kernel.Scheduler.Shape.{apply, apply-IsGraph, starts, runs_now, fails}

-- How a supervisor uses the graph, whose methods themselves take any service: it starts a ready
-- service, a service that is starting runs, and a service that does not run fails.
pub data Step (g : Graph) : Graph → Type 0 where
  start : (i : ℕ) → contains i (get_ready_services g) ≡ true → Step g (mark_starting i g)
  run :
      (i : ℕ) (n : ServiceNode)
      → get_elem? g i ≡ some n
      → n.state ≡ starting
      → Step g (mark_running i g)
  fail :
      (i : ℕ) (n : ServiceNode)
      → get_elem? g i ≡ some n
      → n.state ≢ running
      → Step g (mark_failed i g)

pub data Reach (g : Graph) : Graph → Type 0 where
  here : Reach g g
  next : {h k : Graph} → Reach g h → Step h k → Reach g k

abbrev pub IsActive : ServiceState → Type 0
IsActive starting = Unit {0}
IsActive running = Unit {0}
IsActive _ = ⊥

-- Every service that is starting or running has all its dependencies running.
pub record IsOrdered (g : Graph) : Type 0 where
  pub shape : IsGraph g
  pub deps_run :
      (i : ℕ) (n : ServiceNode) → get_elem? g i ≡ some n → IsActive n.state → AllRunning g n.deps

get_elem?-modify_at :
    (i j : ℕ) (f : ServiceNode → ServiceNode) (g : Graph) (n : ServiceNode)
    → get_elem? (modify_at i f g) j ≡ some n
    → (old : ServiceNode) × (get_elem? g j ≡ some old) × (n ≡ (if i == j then f old else old))
unfolding modify_at
get_elem?-modify_at i j f [] n h = cc
get_elem?-modify_at zero zero f (x ∷ g) n h = (x, refl, ground arith)
get_elem?-modify_at zero (suc j) f (x ∷ g) n h = (n, h, ground arith)
get_elem?-modify_at (suc i) zero f (x ∷ g) n h = (x, refl, ground arith)
get_elem?-modify_at (suc i) (suc j) f (x ∷ g) n h =
    let (old, e, q) = get_elem?-modify_at i j f g n h in (old, e, ground (arith, q))

modify_at-some :
    (i j : ℕ) (f : ServiceNode → ServiceNode) (g : Graph) (n : ServiceNode)
    → get_elem? g j ≡ some n
    → get_elem? (modify_at i f g) j ≡ some (if i == j then f n else n)
unfolding modify_at
modify_at-some i j f [] n h = cc
modify_at-some zero zero f (x ∷ g) n h = ground arith
modify_at-some zero (suc j) f (x ∷ g) n h = ground arith
modify_at-some (suc i) zero f (x ∷ g) n h = ground arith
modify_at-some (suc i) (suc j) f (x ∷ g) n h = ground (arith, modify_at-some i j f g n h)

-- A running service keeps running when a service that does not run changes its state.
module _ (g : Graph) (i : ℕ) (s : ServiceState) (m : ServiceNode) (at : get_elem? g i ≡ some m)
    (idle : m.state ≢ running) where
  IsRunning-keeps : (d : ℕ) → IsRunning g d → IsRunning (modify_at i (with_state s) g) d
  IsRunning-keeps d (n, e, r) = elim (Bool-cases (i == d)) [
    | inl same ↦ absurd (idle (ground (arith, at, e, r)))
    | inr other ↦ (n, ground (arith, modify_at-some i d (with_state s) g n e), r)
  ]

  AllRunning-keeps : (ds : List ℕ) → AllRunning g ds → AllRunning (modify_at i (with_state s) g) ds
  AllRunning-keeps [] h = tt
  AllRunning-keeps (d ∷ ds) h = (IsRunning-keeps d h.0, AllRunning-keeps ds h.1)

  -- The changed service is allowed to be active only if its dependencies run.
  deps_keep :
      IsOrdered g
      → (IsActive s → AllRunning g m.deps)
      → (j : ℕ) (n : ServiceNode) → get_elem? (modify_at i (with_state s) g) j ≡ some n
      → IsActive n.state
      → AllRunning (modify_at i (with_state s) g) n.deps
  deps_keep o may j n e act =
      let (old, was, now) = get_elem?-modify_at i j (with_state s) g n e in
      elim (Bool-cases (i == j)) [
        | inl same ↦
            let is_m : n ≡ with_state s m = ground (arith, at, was, now) in
            AllRunning-keeps n.deps (
              subst (λ (x : ServiceNode). AllRunning g x.deps) (sym is_m)
                (may (subst (λ (x : ServiceNode). IsActive x.state) is_m act)))
        | inr other ↦
            let is_old : n ≡ old = ground (arith, now) in
            AllRunning-keeps n.deps (o.deps_run j n (was ∙ ap some (sym is_old)) act)
      ]

pub Step-IsOrdered : {g h : Graph} → Step g h → IsOrdered g → IsOrdered h
unfolding mark_starting mark_running mark_failed apply
Step-IsOrdered {g} (start i ready) o =
    let r = (get_ready_services_iff g i o.shape).0 ready in
    record {
      shape = apply-IsGraph (starts i) g o.shape;
      deps_run = deps_keep g i starting r.node r.at (λ e. cc (e, r.waits)) o (λ _. r.deps_run);
    }
Step-IsOrdered {g} (run i n e s) o = record {
  shape = apply-IsGraph (runs_now i) g o.shape;
  deps_run =
      deps_keep g i running n e (λ r. cc (r, s)) o
        (λ _. o.deps_run i n e (subst IsActive (sym s) tt));
}
Step-IsOrdered {g} (fail i n e s) o = record {
  shape = apply-IsGraph (fails i) g o.shape;
  deps_run = deps_keep g i failed n e s o (λ x. absurd x);
}

-- From a graph whose active services have running dependencies, such as one where all are
-- pending, a control plane that starts only ready services, marks only starting services as
-- running and never marks a running service as failed keeps it so, in any order of these calls.
pub Reach-IsOrdered : {g h : Graph} → IsOrdered g → Reach g h → IsOrdered h
Reach-IsOrdered o here = o
Reach-IsOrdered o (next r s) = Step-IsOrdered s (Reach-IsOrdered o r)
