-- ===== src/StateMachines.antt =====
-- The explicit transition tables of the program, and what a sequence of asserted transitions
-- can reach. Each table is a module below; this file holds what they share.
pub mod Action
pub mod ActionPlan
pub mod TaskBoard
pub mod ActionPaths
pub mod PlanPaths
pub mod TaskPaths
use mr_enderson.Base.{
  ℕ, ◌+◌, ◌≤◌, ◌<◌, ◌≡◌, refl, sym, ◌⊎◌, inl, inr, Bool, true, false, List, [], ◌∷◌, arith, length,
  In, here, there, Outcome, ok, raise, ◌>>=◌, ◌>>◌,
}

-- Every `...TransitionError` carries the two statuses.
pub record TransitionError (S : Type 0) : Type 0 where
  pub current : S
  pub target : S

module _ {S : Type 0} (assert : S → S → Outcome (TransitionError S) (Unit {0})) where
  -- A component that takes its object through the statuses `ts`, asserting each step.
  unfoldable pub follow : S → List S → Outcome (TransitionError S) S
  follow s [] = ok s
  follow s (t ∷ ts) = assert s t >> follow t ts

  pub follow-uncons :
      (s t u : S) (ts : List S)
      → follow s (t ∷ ts) ≡ ok u
      → (assert s t ≡ ok tt) × (follow t ts ≡ ok u)
  unfolding follow
  follow-uncons s t u ts h = go (assert s t) refl h
    where
      go :
          (r : Outcome (TransitionError S) (Unit {0}))
          → assert s t ≡ r
          → (r >> follow t ts) ≡ ok u
          → (assert s t ≡ ok tt) × (follow t ts ≡ ok u)
      go (ok tt) e k = (e, k)
      go (raise x) e k = cc

  -- A step that leaves the region `before` lands on `gate`: so a path out of it visits `gate`.
  pub follow-gate :
      (before : S → Bool) (gate : S)
      → ((s t : S) → before s ≡ true → assert s t ≡ ok tt → (before t ≡ true) ⊎ (gate ≡ t))
      → (s u : S) (ts : List S) → before s ≡ true
      → before u ≡ false
      → follow s ts ≡ ok u
      → In gate ts
  unfolding follow
  follow-gate before gate closed s u [] inside outside h = ground arith
  follow-gate before gate closed s u (t ∷ ts) inside outside h =
      let (step, rest) = follow-uncons s t u ts h in
      elim (closed s t inside step) [
        | inl still ↦ there (follow-gate before gate closed t u ts still outside rest)
        | inr at_gate ↦ here at_gate
      ]

  -- Where every step lowers a rank, the rank bounds the length of each path.
  pub follow-rank :
      (rank : S → ℕ)
      → ((s t : S) → assert s t ≡ ok tt → rank t < rank s)
      → (s u : S) (ts : List S) → follow s ts ≡ ok u
      → length ts + rank u ≤ rank s
  unfolding follow
  follow-rank rank drops s u [] h = ground arith
  follow-rank rank drops s u (t ∷ ts) h =
      let (step, rest) = follow-uncons s t u ts h in
      omega (arith, drops s t step, follow-rank rank drops t u ts rest)
