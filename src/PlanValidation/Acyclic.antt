-- ===== src/PlanValidation/Acyclic.antt =====
-- Without a cycle the actions have ranks.
use mr_enderson.Base.{
  ℕ, suc, ◌≤◌, ◌<◌, ◌≡◌, refl, ◌⊎◌, inl, inr, String, true, none, some, List, [], ◌∷◌, arith, ◌==◌,
  string_eq, ==-refl, ==→≡, ==-cases, length, contains, all-at, keys, Bool-cases, if◌then◌else◌,
}
use mr_enderson.Schemas.{Action}
use mr_enderson.PlanValidation.Cycles.{
  Walk, found, finished, out_of_fuel, graph_of, edges, cycle_of, search, detect_dependency_cycle,
  no_marks,
}
use mr_enderson.PlanValidation.Walks.{IsCycle}
use mr_enderson.PlanValidation.Search.{IsOrdered, Good, search-Good}

-- `rank` puts the ends of the edges of the given nodes below the nodes: there is no cycle.
unfoldable pub IsRanked : (String → ℕ) → (String → List String) → List String → Type 0
IsRanked rank e nodes =
    (x d : String) → contains x nodes ≡ true → contains d (e x) ≡ true → rank d < rank x

-- Counted from the end of the list, at the last place of the node.
rank_in : List String → String → ℕ
rank_in [] x = 0
rank_in (y ∷ rest) x =
    if contains x rest then rank_in rest x else if y == x then suc (length rest) else 0

rank_in_le : (l : List String) (x : String) → rank_in l x ≤ length l
unfolding rank_in
rank_in_le [] x = omega arith
rank_in_le (y ∷ rest) x = ground (arith, rank_in_le rest x)

module _ (e : String → List String) where
  ordered_closed :
      (l : List String) (x d : String)
      → IsOrdered e l
      → contains x l ≡ true
      → contains d (e x) ≡ true
      → contains d l ≡ true
  unfolding IsOrdered
  ordered_closed [] x d o h k = cc
  ordered_closed (y ∷ rest) x d o h k = elim (==-cases x y) [
    | inl same ↦ ground (arith, all-at (λ z. contains z rest) d (e y) o.0 (rw (← same) k))
    | inr other ↦ ground (arith, other, ordered_closed rest x d o.1)
  ]

  ordered_lt :
      (l : List String) (x d : String)
      → IsOrdered e l
      → contains x l ≡ true
      → contains d (e x) ≡ true
      → rank_in l d < rank_in l x
  unfolding IsOrdered rank_in
  ordered_lt [] x d o h k = cc
  ordered_lt (y ∷ rest) x d o h k = elim (Bool-cases (contains x rest)) [
    | inl later ↦ rw (later, ordered_closed rest x d o.1 later k) (ordered_lt rest x d o.1 later k)
    | inr last ↦
        let same : x ≡ y = ==→≡ x y (ground (arith, last)) in
        let below : contains d rest ≡ true =
          all-at (λ z. contains z rest) d (e y) o.0 (rw (← same) k) in
        rw (last, below) (rw (same, ==-refl y) (omega (arith, rank_in_le rest d)))
  ]

pub search_decides :
    (actions : List Action)
    → ((cycle : List String) × (detect_dependency_cycle actions ≡ some cycle)
        × IsCycle (edges (graph_of actions)) cycle)
      ⊎ ((detect_dependency_cycle actions ≡ none)
          × ((rank : String → ℕ) × IsRanked rank
                (edges (graph_of actions))
                (keys (graph_of actions))))
unfolding detect_dependency_cycle IsRanked
search_decides actions = go (search actions) (search-Good actions)
  where
    go :
        (w : Walk)
        → Good (edges (graph_of actions)) (keys (graph_of actions)) no_marks w
        → ((cycle : List String) × (cycle_of w ≡ some cycle)
            × IsCycle (edges (graph_of actions)) cycle)
          ⊎ ((cycle_of w ≡ none)
              × ((rank : String → ℕ) × IsRanked rank
                    (edges (graph_of actions))
                    (keys (graph_of actions))))
    go (found cycle) c = inl (cycle, refl, c)
    go out_of_fuel c = elim c [ ]
    go (finished m) d = inr (
      refl,
      (
        rank_in m.visited,
        λ x y h k.
            ordered_lt (edges (graph_of actions)) m.visited x y d.order
              (all-at (λ z. contains z m.visited) x (keys (graph_of actions)) d.reached h) k,
      ),
    )
