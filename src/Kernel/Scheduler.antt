-- ===== src/Kernel/Scheduler.antt =====
-- kernel/mene-kernel/src/service/scheduler.rs: the graph of services and what each depends on.
-- The methods on `&mut self` take the list of nodes and return it.
pub mod Ready
pub mod Shape
pub mod Order
use mene_os.Base.{
  ℕ, zero, suc, ◌+◌, Bool, true, false, ◌&&◌, ◌||◌, List, [], ◌∷◌, ◌++◌, Option, none, some, length,
  take, min, replicate, copy_front, get_elem?, ltb, if◌then◌else◌,
}

pub data ServiceState : Type 0 where
  pending starting running failed : ServiceState

pub record ServiceNode : Type 0 where
  pub id : ℕ
  pub name : List ℕ
  pub name_len : ℕ
  pub deps : List ℕ
  pub state : ServiceState

-- ServiceNode::new
abbrev pub new_node : ℕ → List ℕ → ServiceNode
new_node id name =
    let len = min (length name) 32 in
    record {
      id = id;
      name = copy_front (take len name) (replicate 32 0);
      name_len = len;
      deps = [];
      state = pending;
    }

abbrev pub name_bytes : ServiceNode → List ℕ
name_bytes node = take node.name_len node.name

-- DependencyGraph
abbrev pub Graph : Type 0
Graph = List ServiceNode

-- `if let Some(node) = self.nodes.get_mut(i) { *node = f(node) }`
unfoldable pub modify_at : ℕ → (ServiceNode → ServiceNode) → Graph → Graph
modify_at i f [] = []
modify_at zero f (n ∷ ns) = f n ∷ ns
modify_at (suc i) f (n ∷ ns) = n ∷ modify_at i f ns

unfoldable pub add_service : List ℕ → Graph → ℕ × Graph
add_service name nodes = let id = length nodes in (id, nodes ++ new_node id name ∷ [])

abbrev pub add_dep : ℕ → ServiceNode → ServiceNode
add_dep dep_id node = record node { deps = node.deps ++ dep_id ∷ [] }

unfoldable pub add_dependency : ℕ → ℕ → Graph → Graph
add_dependency service_id dep_id nodes =
    if ltb service_id (length nodes) && ltb dep_id (length nodes)
    then modify_at service_id (add_dep dep_id) nodes
    else nodes

abbrev pub is_pending : ServiceState → Bool
is_pending pending = true
is_pending _ = false

abbrev pub is_running : ServiceState → Bool
is_running running = true
is_running _ = false

abbrev pub is_failed : ServiceState → Bool
is_failed failed = true
is_failed _ = false

abbrev pub runs : Option ServiceNode → Bool
runs none = false
runs (some n) = is_running n.state

unfoldable pub deps_ready : Graph → List ℕ → Bool
deps_ready nodes [] = true
deps_ready nodes (dep_id ∷ deps) = runs (get_elem? nodes dep_id) && deps_ready nodes deps

-- The loop of `get_ready_services`, over the nodes that are left.
unfoldable pub ready_from : Graph → List ServiceNode → List ℕ
ready_from nodes [] = []
ready_from nodes (node ∷ rest) =
    if is_pending node.state && deps_ready nodes node.deps
    then node.id ∷ ready_from nodes rest
    else ready_from nodes rest

unfoldable pub get_ready_services : Graph → List ℕ
get_ready_services nodes = ready_from nodes nodes

abbrev pub with_state : ServiceState → ServiceNode → ServiceNode
with_state s node = record node { state = s }

unfoldable pub mark_starting : ℕ → Graph → Graph
mark_starting id nodes = modify_at id (with_state starting) nodes

unfoldable pub mark_running : ℕ → Graph → Graph
mark_running id nodes = modify_at id (with_state running) nodes

unfoldable pub mark_failed : ℕ → Graph → Graph
mark_failed id nodes = modify_at id (with_state failed) nodes

unfoldable pub all_completed : Graph → Bool
all_completed [] = true
all_completed (n ∷ ns) = (is_running n.state || is_failed n.state) && all_completed ns
