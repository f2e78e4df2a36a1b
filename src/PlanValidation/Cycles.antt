-- ===== src/PlanValidation/Cycles.antt =====
-- `detect_dependency_cycle` of app/decision_intelligence/plan_validation.py. The nested `visit`
-- shares `visiting`, `visited` and `path`, so it takes and returns them here. Its recursion takes
-- fuel; Python's limit on the depth of recursion is not modelled.
use mr_enderson.Base.{
  ℕ, zero, suc, String, not, Option, none, some, List, [], ◌∷◌, ◌++◌, ◌==◌, string_eq, length, keep,
  contains, Dict, keys, lookup, insert, true, false,
}
use mr_enderson.Schemas.{Action}

-- The three collections.
pub record Marks : Type 0 where
  pub visiting : List String
  pub visited : List String
  pub path : List String

-- What `visit` returns: a cycle, or None with the collections as it left them.
pub data Walk : Type 0 where
  found : List String → Walk
  finished : Marks → Walk
  out_of_fuel : Walk

abbrev pub Graph : Type 0
Graph = Dict String (List String)

-- `[d for d in a.dependencies if d != a.id]`
abbrev pub other_dependencies : Action → List String
other_dependencies a = keep (λ d. not (d == a.id)) a.dependencies

-- The dict comprehension, entry by entry.
abbrev pub add_actions : List Action → Graph → Graph
add_actions [] g = g
add_actions (a ∷ rest) g = add_actions rest (insert a.id (other_dependencies a) g)

unfoldable pub graph_of : List Action → Graph
graph_of actions = add_actions actions []

-- The known dependencies of a node, `graph.get(node, [])` without what the loop passes over.
unfoldable pub edges : Graph → String → List String
edges g node = elim (lookup node g) [ none ↦ [] | some deps ↦ keep (λ d. contains d (keys g)) deps ]

-- `path[path.index(node):]`
unfoldable pub from_node : String → List String → List String
from_node node [] = []
from_node node (x ∷ rest) = elim (node == x) [ true ↦ x ∷ rest | false ↦ from_node node rest ]

-- `path.pop()`
unfoldable pub pop : List String → List String
pop [] = []
pop (x ∷ []) = []
pop (x ∷ y ∷ rest) = x ∷ pop (y ∷ rest)

unfoldable pub enter : String → Marks → Marks
enter node m = record m { visiting = node ∷ m.visiting; path = m.path ++ (node ∷ []) }

unfoldable pub leave : String → Marks → Marks
unfolding pop
leave node m = record {
  visiting = keep (λ v. not (v == node)) m.visiting;
  visited = node ∷ m.visited;
  path = pop m.path;
}

abbrev pub left : String → Walk → Walk
left node (finished m) = finished (leave node m)
left node (found cycle) = found cycle
left node out_of_fuel = out_of_fuel

-- A loop over nodes that stops at the first cycle.
unfoldable pub visit_all : (String → Marks → Walk) → List String → Marks → Walk
visit_all visit [] m = finished m
visit_all visit (node ∷ rest) m = elim (visit node m) [
  | finished m' ↦ visit_all visit rest m'
  | found cycle ↦ found cycle
  | out_of_fuel ↦ out_of_fuel
]

unfoldable pub visit : Graph → ℕ → String → Marks → Walk
unfolding visit_all
visit g zero node m = out_of_fuel
visit g (suc fuel) node m = elim (contains node m.visited) [
  | true ↦ finished m
  | false ↦ elim (contains node m.visiting) [
    | true ↦ found (from_node node m.path ++ (node ∷ []))
    | false ↦ left node (visit_all (visit g fuel) (edges g node) (enter node m))
  ]
]

abbrev pub no_marks : Marks
no_marks = record { visiting = []; visited = []; path = [] }

unfoldable pub search : List Action → Walk
unfolding visit graph_of
search actions =
    let g = graph_of actions in visit_all (visit g (suc (length (keys g)))) (keys g) no_marks

-- None where the search ends without a cycle.
abbrev pub cycle_of : Walk → Option (List String)
cycle_of (found cycle) = some cycle
cycle_of _ = none

unfoldable pub detect_dependency_cycle : List Action → Option (List String)
detect_dependency_cycle actions = cycle_of (search actions)
