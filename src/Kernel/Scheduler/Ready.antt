-- ===== src/Kernel/Scheduler/Ready.antt =====
-- Which services the scheduler calls ready, and the order of starting that follows.
use mene_os.Base.{
  ℕ, zero, suc, ◌+◌, ◌-◌, ◌<◌, ◌≡◌, ◌↔◌, refl, sym, ◌∙◌, Bool, true, false, ◌&&◌, ◌||◌, List, [],
  ◌∷◌, Option, none, some, arith, length, get_elem?, leb, ◌==◌, Bool-cases, Option-cases, inl, inr,
}
use mene_os.Kernel.Scheduler.{
  pending, running, ServiceNode, Graph, is_pending, runs, deps_ready, ready_from,
  get_ready_services,
}

-- The numbers of the nodes are their positions, counted from `k`, and every dependency is one of
-- the first `n` nodes.
abbrev pub AllBelow : ℕ → List ℕ → Type 0
AllBelow n [] = Unit {0}
AllBelow n (d ∷ ds) = (d < n) × AllBelow n ds

abbrev pub IsGraphFrom : ℕ → ℕ → List ServiceNode → Type 0
IsGraphFrom k n [] = Unit {0}
IsGraphFrom k n (x ∷ xs) = (x.id ≡ k) × AllBelow n x.deps × IsGraphFrom (k + 1) n xs

abbrev pub IsGraph : Graph → Type 0
IsGraph g = IsGraphFrom 0 (length g) g

abbrev pub contains : ℕ → List ℕ → Bool
contains i [] = false
contains i (x ∷ xs) = (i == x) || contains i xs

abbrev pub ready_at : Graph → Option ServiceNode → Bool
ready_at g none = false
ready_at g (some node) = is_pending node.state && deps_ready g node.deps

contains-ready_from :
    (g : Graph) (i k n : ℕ) (l : List ServiceNode)
    → IsGraphFrom k n l
    → contains i (ready_from g l) ≡ (leb k i && ready_at g (get_elem? l (i - k)))
unfolding ready_from
contains-ready_from g i k n [] h = ground arith
contains-ready_from g i k n (x ∷ xs) h = elim (Bool-cases (leb (k + 1) i)) [
  | inl later ↦
      let shift : i - k ≡ suc (i - (k + 1)) = ground arith in
      rw shift (ground (arith, contains-ready_from g i (k + 1) n xs h.2))
  | inr now ↦ elim (Bool-cases (i == k)) [
    | inl here ↦
        let none_left : i - k ≡ zero = ground arith in
        rw none_left (ground (arith, contains-ready_from g i (k + 1) n xs h.2))
    | inr before ↦ ground (arith, contains-ready_from g i (k + 1) n xs h.2)
  ]
]

-- The specification: service `i` is pending, and each of its dependencies is a running service.
abbrev pub IsRunning : Graph → ℕ → Type 0
IsRunning g i = (node : ServiceNode) × (get_elem? g i ≡ some node) × (node.state ≡ running)

abbrev pub AllRunning : Graph → List ℕ → Type 0
AllRunning g [] = Unit {0}
AllRunning g (d ∷ ds) = IsRunning g d × AllRunning g ds

pub record IsReady (g : Graph) (i : ℕ) : Type 0 where
  pub node : ServiceNode
  pub at : get_elem? g i ≡ some node
  pub waits : node.state ≡ pending
  pub deps_run : AllRunning g node.deps

pub runs→IsRunning : (g : Graph) (d : ℕ) → runs (get_elem? g d) ≡ true → IsRunning g d
runs→IsRunning g d h = elim (Option-cases (get_elem? g d)) [
  | inl e ↦ ground (arith, e, h)
  | inr (node, e) ↦ (node, e, ground (arith, e, h))
]

pub IsRunning→runs : (g : Graph) (d : ℕ) → IsRunning g d → runs (get_elem? g d) ≡ true
IsRunning→runs g d (node, e, r) = ground (arith, e, r)

pub deps_ready→AllRunning : (g : Graph) (ds : List ℕ) → deps_ready g ds ≡ true → AllRunning g ds
unfolding deps_ready
deps_ready→AllRunning g [] h = tt
deps_ready→AllRunning g (d ∷ ds) h =
    (runs→IsRunning g d (ground arith), deps_ready→AllRunning g ds (ground arith))

AllRunning→deps_ready : (g : Graph) (ds : List ℕ) → AllRunning g ds → deps_ready g ds ≡ true
unfolding deps_ready
AllRunning→deps_ready g [] h = refl
AllRunning→deps_ready g (d ∷ ds) h =
    ground (arith, IsRunning→runs g d h.0, AllRunning→deps_ready g ds h.1)

IsReady-at→IsReady :
    (g : Graph) (i : ℕ) (o : Option ServiceNode)
    → get_elem? g i ≡ o
    → ready_at g o ≡ true
    → IsReady g i
IsReady-at→IsReady g i none e h = cc
IsReady-at→IsReady g i (some node) e h = record {
  node = node;
  at = e;
  waits = ground arith;
  deps_run = deps_ready→AllRunning g node.deps (ground arith);
}

-- In a well-formed graph `get_ready_services` returns exactly the services that are pending and
-- whose dependencies are all running services.
pub get_ready_services_iff :
    (g : Graph) (i : ℕ) → IsGraph g → (contains i (get_ready_services g) ≡ true) ↔ IsReady g i
unfolding get_ready_services
get_ready_services_iff g i w =
    let same : contains i (ready_from g g) ≡ ready_at g (get_elem? g i) =
      ground (arith, contains-ready_from g i 0 (length g) g w, sub_zero) in
    (
      λ h. IsReady-at→IsReady g i (get_elem? g i) refl (sym same ∙ h),
      λ r. same ∙ rw r.at (ground (arith, r.waits, AllRunning→deps_ready g r.node.deps r.deps_run)),
    )
  where
    sub_zero : i - 0 ≡ i
    sub_zero = omega arith
