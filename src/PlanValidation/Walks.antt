-- ===== src/PlanValidation/Walks.antt =====
-- Paths in a graph, and the collections of the search as lists.
use mr_enderson.Base.{
  ℕ, ◌≤◌, ◌<◌, ◌≡◌, refl, ap, inl, inr, String, true, false, ◌||◌, not, List, [], ◌∷◌, ◌++◌, arith,
  ◌==◌, string_eq, ==-refl, ==-sym, ==-cases, length, keep, contains,
}
use mr_enderson.PlanValidation.Cycles.{from_node, pop}

module _ (e : String → List String) where
  -- Each node of the list has an edge to the next.
  unfoldable pub Steps : List String → Type 0
  Steps [] = Unit
  Steps (x ∷ []) = Unit
  Steps (x ∷ y ∷ rest) = (contains y (e x) ≡ true) × Steps (y ∷ rest)

  -- A walk along at least one edge that ends where it starts.
  pub record IsCycle (cycle : List String) : Type 0 where
    pub start : String
    pub middle : List String
    pub closed : cycle ≡ start ∷ (middle ++ (start ∷ []))
    pub walk : Steps cycle

  pub Steps-snoc :
      (p : List String) (x y : String)
      → Steps (p ++ (x ∷ []))
      → contains y (e x) ≡ true
      → Steps ((p ++ (x ∷ [])) ++ (y ∷ []))
  unfolding Steps
  Steps-snoc [] x y h edge = (edge, tt)
  Steps-snoc (a ∷ []) x y h edge = (h.0, Steps-snoc [] x y tt edge)
  Steps-snoc (a ∷ b ∷ p) x y h edge = (h.0, Steps-snoc (b ∷ p) x y h.1 edge)

  Steps-tail : (x : String) (l : List String) → Steps (x ∷ l) → Steps l
  unfolding Steps
  Steps-tail x [] h = tt
  Steps-tail x (y ∷ l) h = h.1

  pub Steps-from :
      (node : String) (p t : List String) → Steps (p ++ t) → Steps (from_node node p ++ t)
  unfolding from_node
  Steps-from node [] t h = h
  Steps-from node (x ∷ p) t h =
      elim (node == x) as (λ b. Steps ((elim b [ true ↦ x ∷ p | false ↦ from_node node p ]) ++ t)) [
        | true ↦ h
        | false ↦ Steps-from node p t (Steps-tail x (p ++ t) h)
      ]

pub from_start :
    (node : String) (p : List String)
    → contains node p ≡ true
    → (middle : List String) × (from_node node p ≡ node ∷ middle)
unfolding from_node
from_start node [] h = cc
from_start node (x ∷ p) h = elim (==-cases node x) [
  | inl same ↦ (p, rw (same, from_node, ==-refl x) refl)
  | inr other ↦
      let (middle, q) = from_start node p (rw other at h) in (middle, rw (other, from_node) q)
]

pub pop-snoc : (p : List String) (x : String) → pop (p ++ (x ∷ [])) ≡ p
unfolding pop
pop-snoc [] x = refl
pop-snoc (a ∷ []) x = refl
pop-snoc (a ∷ b ∷ p) x = ap (λ l. a ∷ l) (pop-snoc (b ∷ p) x)

pub contains-append :
    (x : String) (p q : List String) → contains x (p ++ q) ≡ (contains x p || contains x q)
contains-append x [] q = refl
contains-append x (y ∷ p) q = ground (arith, contains-append x p q)

keep-others :
    (node : String) (l : List String) → contains node l ≡ false → keep (λ v. not (v == node)) l ≡ l
keep-others node [] h = refl
keep-others node (x ∷ l) h = ground (arith, ==-sym x node, keep-others node l)

-- Adding a node that is not there and discarding it again.
pub discard-add :
    (node : String) (l : List String)
    → contains node l ≡ false
    → keep (λ v. not (v == node)) (node ∷ l) ≡ l
discard-add node l h = ground (arith, ==-refl node, keep-others node l h)

-- How many of the keys are not being visited.
pub unseen : List String → List String → ℕ
unseen ks visiting = length (keep (λ k. not (contains k visiting)) ks)

unseen_le :
    (node : String) (ks visiting : List String) → unseen ks (node ∷ visiting) ≤ unseen ks visiting
unfolding unseen
unseen_le node [] visiting = omega arith
unseen_le node (k ∷ ks) visiting = ground (arith, unseen_le node ks visiting)

pub unseen_lt :
    (node : String) (ks visiting : List String)
    → contains node ks ≡ true
    → contains node visiting ≡ false
    → unseen ks (node ∷ visiting) < unseen ks visiting
unfolding unseen
unseen_lt node [] visiting h n = cc
unseen_lt node (k ∷ ks) visiting h n = elim (==-cases node k) [
  | inl same ↦ rw (← same) (ground (arith, ==-refl node, unseen_le node ks visiting))
  | inr other ↦ ground (arith, other, unseen_lt node ks visiting)
]

pub unseen_none : (ks : List String) → unseen ks [] ≤ length ks
unfolding unseen
unseen_none [] = omega arith
unseen_none (k ∷ ks) = omega (arith, unseen_none ks)
