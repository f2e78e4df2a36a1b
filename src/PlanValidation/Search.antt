-- ===== src/PlanValidation/Search.antt =====
-- The search ends, returns real cycles only, and otherwise leaves the nodes in an order in which
-- every dependency comes first.
use mr_enderson.Base.{
  ℕ, zero, suc, ◌<◌, ◌≡◌, refl, ap, ◌∙◌, String, Bool, true, false, Option, none, some, List, [],
  ◌∷◌, ◌++◌, arith, string_eq, ==-refl, length, keep, contains, subset, subset_refl, subset_trans,
  all-at, all_of_contains, contains-keep, keys, lookup,
}
use mr_enderson.PlanValidation.Cycles.{
  Marks, Walk, found, finished, out_of_fuel, Graph, edges, from_node, enter, leave, left, visit_all,
  visit, no_marks, graph_of, search,
}
use mr_enderson.Schemas.{Action}
use mr_enderson.PlanValidation.Walks.{
  Steps, IsCycle, Steps-snoc, Steps-from, from_start, pop-snoc, contains-append, discard-add,
  unseen, unseen_lt, unseen_none,
}

-- Each node stands before all that it has an edge to.
unfoldable pub IsOrdered : (String → List String) → List String → Type 0
IsOrdered e [] = Unit
IsOrdered e (x ∷ rest) = (subset (e x) rest ≡ true) × IsOrdered e rest

module _ (e : String → List String) where
  pub record IsReady (m : Marks) : Type 0 where
    pub order : IsOrdered e m.visited
    pub marked : (x : String) → contains x m.visiting ≡ true → contains x m.path ≡ true

  -- What a search from `nodes` leaves where it finds no cycle.
  pub record IsDone (nodes : List String) (m m' : Marks) : Type 0 where
    pub visiting : m'.visiting ≡ m.visiting
    pub path : m'.path ≡ m.path
    pub reached : subset nodes m'.visited ≡ true
    pub grown : subset m.visited m'.visited ≡ true
    pub order : IsOrdered e m'.visited

  abbrev pub Good : List String → Marks → Walk → Type 0
  Good nodes m (found cycle) = IsCycle e cycle
  Good nodes m (finished m') = IsDone nodes m m'
  Good nodes m out_of_fuel = ⊥

  done-IsReady : (nodes : List String) (m m' : Marks) → IsReady m → IsDone nodes m m' → IsReady m'
  done-IsReady nodes m m' r d = record {
    order = d.order;
    marked = λ x h. rw d.path (r.marked x (rw d.visiting at h));
  }

  abbrev pub Visits : (String → Marks → Walk) → List String → Marks → Type 0
  Visits v nodes m =
      (node : String)
      → contains node nodes ≡ true
      → (m' : Marks) → m'.visiting ≡ m.visiting
      → m'.path ≡ m.path
      → IsReady m'
      → Good (node ∷ []) m' (v node m')

  all-Good :
      (v : String → Marks → Walk) (nodes : List String) (m : Marks)
      → Visits v nodes m
      → IsReady m
      → Good nodes m (visit_all v nodes m)
  unfolding visit_all
  all-Good v [] m step r = record {
    visiting = refl;
    path = refl;
    reached = refl;
    grown = subset_refl m.visited;
    order = r.order;
  }
  all-Good v (node ∷ rest) m step r =
      go (v node m) (step node (ground (arith, ==-refl node)) m refl refl r)
        (λ m'. all-Good v rest m')
    where
      go :
          (w : Walk)
          → Good (node ∷ []) m w
          → ((m' : Marks) → Visits v rest m' → IsReady m' → Good rest m' (visit_all v rest m'))
          → Good (node ∷ rest) m (elim w [
            | finished m' ↦ visit_all v rest m'
            | found cycle ↦ found cycle
            | out_of_fuel ↦ out_of_fuel
          ])
      go (found cycle) c ih = c
      go out_of_fuel c ih = c
      go (finished m') d ih = join (visit_all v rest m') (
          ih m'
            (λ n inside m'' vis path ready.
              step n (ground (arith, inside)) m'' (vis ∙ d.visiting) (path ∙ d.path) ready)
            (done-IsReady (node ∷ []) m m' r d))
        where
          join : (w : Walk) → Good rest m' w → Good (node ∷ rest) m w
          join (found cycle) c = c
          join out_of_fuel c = c
          join (finished m'') d' = record {
            visiting = d'.visiting ∙ d.visiting;
            path = d'.path ∙ d.path;
            reached =
                let here : contains node m''.visited ≡ true =
                  all-at (λ x. contains x m''.visited) node m'.visited d'.grown
                    (ground (arith, d.reached)) in
                ground (arith, here, d'.reached);
            grown = subset_trans m.visited m'.visited m''.visited d.grown d'.grown;
            order = d'.order;
          }

module _ (g : Graph) where
  edges_known : (node d : String) → contains d (edges g node) ≡ true → contains d (keys g) ≡ true
  unfolding edges
  edges_known node d h = go (lookup node g) h
    where
      go :
          (o : Option (List String))
          → contains d (elim o [ none ↦ [] | some deps ↦ keep (λ d. contains d (keys g)) deps ])
            ≡ true
          → contains d (keys g) ≡ true
      go none h = cc
      go (some deps) h = ground (arith, contains-keep (λ d. contains d (keys g)) d deps)

  module _ (node : String) (m : Marks) (r : IsReady (edges g) m) where
    repeat-IsCycle :
        Steps (edges g) (m.path ++ (node ∷ []))
        → contains node m.visiting ≡ true
        → IsCycle (edges g) (from_node node m.path ++ (node ∷ []))
    repeat-IsCycle walk h =
        let (middle, shape) = from_start node m.path (r.marked node h) in
        record {
          start = node;
          middle = middle;
          closed = ap (λ l. l ++ (node ∷ [])) shape;
          walk = Steps-from (edges g) node m.path (node ∷ []) walk;
        }

    enter-IsReady : IsReady (edges g) (enter node m)
    unfolding enter
    enter-IsReady = record {
      order = r.order;
      marked = λ x h. ground (arith, contains-append x m.path (node ∷ []), r.marked x);
    }

    leave-IsDone :
        (m' : Marks)
        → contains node m.visiting ≡ false
        → IsDone (edges g) (edges g node) (enter node m) m'
        → IsDone (edges g) (node ∷ []) m (leave node m')
    unfolding enter leave
    leave-IsDone m' fresh d = record {
      visiting = rw d.visiting (discard-add node m.visiting fresh);
      path = rw d.path (pop-snoc m.path node);
      reached = ground (arith, ==-refl node);
      grown =
          all_of_contains (λ x. contains x (node ∷ m'.visited)) m.visited
            (λ x h. ground (arith, all-at (λ x. contains x m'.visited) x m.visited d.grown h));
      order = unfold IsOrdered in (d.reached, d.order);
    }

    left-Good :
        (w : Walk)
        → contains node m.visiting ≡ false
        → Good (edges g) (edges g node) (enter node m) w
        → Good (edges g) (node ∷ []) m (left node w)
    left-Good (found cycle) fresh c = c
    left-Good out_of_fuel fresh c = c
    left-Good (finished m') fresh d = leave-IsDone m' fresh d

  visit-Good :
      (fuel : ℕ) (node : String) (m : Marks)
      → IsReady (edges g) m
      → contains node (keys g) ≡ true
      → Steps (edges g) (m.path ++ (node ∷ []))
      → unseen (keys g) m.visiting < fuel
      → Good (edges g) (node ∷ []) m (visit g fuel node m)
  unfolding visit enter
  visit-Good zero node m r known walk room = absurd (omega arith)
  visit-Good (suc fuel) node m r known walk room =
      at_visited (contains node m.visited) refl (λ fresh.
        all-Good (edges g) (visit g fuel) (edges g node) (enter node m)
          (λ d inside m' vis path ready.
            visit-Good fuel d m' ready (edges_known node d inside)
              (rw path (Steps-snoc (edges g) m.path node d walk inside))
              (rw vis (omega (arith, unseen_lt node (keys g) m.visiting known fresh))))
          (enter-IsReady node m r))
    where
      inner : Walk
      inner = visit_all (visit g fuel) (edges g node) (enter node m)

      at_visiting :
          (b : Bool)
          → contains node m.visiting ≡ b
          → (contains node m.visiting ≡ false → Good (edges g) (edges g node) (enter node m) inner)
          → Good (edges g) (node ∷ []) m (elim b [
            | true ↦ found (from_node node m.path ++ (node ∷ []))
            | false ↦ left node inner
          ])
      at_visiting true e ih = repeat-IsCycle node m r walk e
      at_visiting false e ih = left-Good node m r inner e (ih e)

      at_visited :
          (b : Bool)
          → contains node m.visited ≡ b
          → (contains node m.visiting ≡ false → Good (edges g) (edges g node) (enter node m) inner)
          → Good (edges g) (node ∷ []) m (elim b [
            | true ↦ finished m
            | false ↦ elim (contains node m.visiting) [
              | true ↦ found (from_node node m.path ++ (node ∷ []))
              | false ↦ left node inner
            ]
          ])
      at_visited true e ih = record {
        visiting = refl;
        path = refl;
        reached = ground (arith, e);
        grown = subset_refl m.visited;
        order = r.order;
      }
      at_visited false e ih = at_visiting (contains node m.visiting) refl ih

-- The whole search: it does not run out of fuel, and a cycle that it returns is one.
pub search-Good :
    (actions : List Action)
    → Good (edges (graph_of actions)) (keys (graph_of actions)) no_marks (search actions)
unfolding search
search-Good actions =
    let g = graph_of actions in
    all-Good (edges g) (visit g (suc (length (keys g)))) (keys g) no_marks
      (λ node inside m vis path ready.
        visit-Good g (suc (length (keys g))) node m ready inside (rw path (unfold Steps in tt))
          (rw vis (omega (arith, unseen_none (keys g)))))
      (record { order = unfold IsOrdered in tt; marked = λ x h. h })
