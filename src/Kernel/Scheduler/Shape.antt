-- ===== src/Kernel/Scheduler/Shape.antt =====
-- Every operation of the scheduler keeps its graph well-formed.
use mene_os.Base.{
  ℕ, zero, suc, ◌+◌, ◌≤◌, ◌<◌, ◌≡◌, refl, ◌∙◌, ap, List, [], ◌∷◌, ◌++◌, arith, length, ltb, ◌&&◌,
  length-append, Bool-cases, inl, inr,
}
use mene_os.Kernel.Scheduler.{
  ServiceNode, Graph, modify_at, add_service, add_dep, add_dependency, new_node, mark_starting,
  mark_running, mark_failed,
}
use mene_os.Kernel.Scheduler.Ready.{AllBelow, IsGraphFrom, IsGraph}

AllBelow-mono : (n m : ℕ) (ds : List ℕ) → n ≤ m → AllBelow n ds → AllBelow m ds
AllBelow-mono n m [] h a = tt
AllBelow-mono n m (d ∷ ds) h a = (omega arith, AllBelow-mono n m ds h a.1)

AllBelow-append : (n d : ℕ) (ds : List ℕ) → d < n → AllBelow n ds → AllBelow n (ds ++ d ∷ [])
AllBelow-append n d [] h a = (h, tt)
AllBelow-append n d (x ∷ ds) h a = (a.0, AllBelow-append n d ds h a.1)

pub length-modify_at :
    (i : ℕ) (f : ServiceNode → ServiceNode) (g : Graph) → length (modify_at i f g) ≡ length g
unfolding modify_at
length-modify_at i f [] = refl
length-modify_at zero f (x ∷ g) = refl
length-modify_at (suc i) f (x ∷ g) = ap suc (length-modify_at i f g)

-- A change of a node that keeps its number and the bound on its dependencies.
modify_at-IsGraphFrom :
    (k n i : ℕ) (f : ServiceNode → ServiceNode) (g : Graph)
    → ((x : ServiceNode) → (f x).id ≡ x.id)
    → ((x : ServiceNode) → AllBelow n x.deps → AllBelow n (f x).deps)
    → IsGraphFrom k n g
    → IsGraphFrom k n (modify_at i f g)
unfolding modify_at
modify_at-IsGraphFrom k n i f [] p q h = tt
modify_at-IsGraphFrom k n zero f (x ∷ g) p q h = (p x ∙ h.0, q x h.1, h.2)
modify_at-IsGraphFrom k n (suc i) f (x ∷ g) p q h =
    (h.0, h.1, modify_at-IsGraphFrom (k + 1) n i f g p q h.2)

modify_at-IsGraph :
    (i : ℕ) (f : ServiceNode → ServiceNode) (g : Graph)
    → ((x : ServiceNode) → (f x).id ≡ x.id)
    → ((x : ServiceNode) → AllBelow (length g) x.deps → AllBelow (length g) (f x).deps)
    → IsGraph g
    → IsGraph (modify_at i f g)
modify_at-IsGraph i f g p q h =
    rw (length-modify_at i f g) (modify_at-IsGraphFrom 0 (length g) i f g p q h)

append-IsGraphFrom :
    (k n m : ℕ) (g : Graph) (x : ServiceNode)
    → n ≤ m
    → x.id ≡ k + length g
    → AllBelow m x.deps
    → IsGraphFrom k n g
    → IsGraphFrom k m (g ++ x ∷ [])
append-IsGraphFrom k n m [] x h e a w = (omega arith, a, tt)
append-IsGraphFrom k n m (y ∷ g) x h e a w =
    (w.0, AllBelow-mono n m y.deps h w.1, append-IsGraphFrom (k + 1) n m g x h (omega arith) a w.2)

pub data Op : Type 0 where
  adds : List ℕ → Op
  depends : ℕ → ℕ → Op
  starts runs_now fails : ℕ → Op

unfoldable pub apply : Op → Graph → Graph
apply (adds name) g = (add_service name g).1
apply (depends service_id dep_id) g = add_dependency service_id dep_id g
apply (starts i) g = mark_starting i g
apply (runs_now i) g = mark_running i g
apply (fails i) g = mark_failed i g

-- Each operation on the graph keeps the node numbers equal to the positions and every
-- dependency inside the graph, whatever numbers it is given.
pub apply-IsGraph : (op : Op) (g : Graph) → IsGraph g → IsGraph (apply op g)
unfolding apply add_service add_dependency mark_starting mark_running mark_failed
apply-IsGraph (adds name) g h =
    let len : length (g ++ new_node (length g) name ∷ []) ≡ length g + 1 =
      length-append g (new_node (length g) name ∷ []) in
    rw len (
      append-IsGraphFrom 0 (length g) (length g + 1) g (new_node (length g) name) (omega arith)
        (omega arith) tt h)
apply-IsGraph (depends service_id dep_id) g h =
    elim (Bool-cases (ltb service_id (length g) && ltb dep_id (length g))) [
      | inl inside ↦ rw inside (
          modify_at-IsGraph service_id (add_dep dep_id) g (λ x. refl)
            (λ x a. AllBelow-append (length g) dep_id x.deps (ground arith) a) h)
      | inr outside ↦ rw outside h
    ]
apply-IsGraph (starts i) g h = modify_at-IsGraph i _ g (λ x. refl) (λ x a. a) h
apply-IsGraph (runs_now i) g h = modify_at-IsGraph i _ g (λ x. refl) (λ x a. a) h
apply-IsGraph (fails i) g h = modify_at-IsGraph i _ g (λ x. refl) (λ x a. a) h
