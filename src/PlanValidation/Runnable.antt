-- ===== src/PlanValidation/Runnable.antt =====
-- What a plan without blockers is like.
use mr_enderson.Base.{
  is_empty-nil, append-nil, ℕ, ◌<◌, ◌≡◌, refl, ◌∙◌, inl, inr, String, true, false, ◌||◌, not, some,
  List, [], ◌∷◌, ◌++◌, arith, ◌==◌, string_eq, ==-refl, ==-cases, is_empty, In, here, there,
  contains, contains-keep, keys, lookup, insert, lookup-insert_self, lookup-insert_ne, Bool-cases,
}
use mr_enderson.Schemas.{Action, ActionPlan}
use mr_enderson.Authority.Identifiers.{Unicode}
use mr_enderson.PlanValidation.Cycles.{Graph, graph_of, add_actions, other_dependencies, edges}
use mr_enderson.PlanValidation.Checks.{
  duplicate_action_ids, ids, unknown_dependency_ids, self_dependencies, when_any, cycle_blockers,
  blockers_of, evaluate_plan_readiness, structural, duplicate_ids, self_dependent,
  unknown_dependencies, cyclic,
}
use mr_enderson.PlanValidation.Acyclic.{IsRanked, search_decides}
use mr_enderson.PlanValidation.Clean.{
  Fresh, when_any-nil, duplicates-Fresh, missing_in-known, self-none,
}

-- The graph of the actions.
contains-insert :
    (x key : String) (deps : List String) (g : Graph)
    → contains x (keys (insert key deps g)) ≡ (x == key || contains x (keys g))
contains-insert x key deps [] = refl
contains-insert x key deps ((other, old) ∷ g) = elim (==-cases key other) [
  | inl same ↦ rw (same, ==-refl other) (ground arith)
  | inr differ ↦ rw (differ, contains-insert x key deps g) (ground arith)
]

contains-keys :
    (x : String) (actions : List Action) (g : Graph)
    → contains x (keys (add_actions actions g)) ≡ (contains x (ids actions) || contains x (keys g))
contains-keys x [] g = refl
contains-keys x (a ∷ rest) g =
    rw
      (
        contains-keys x rest (insert a.id (other_dependencies a) g),
        contains-insert x a.id (other_dependencies a) g,
      )
      (ground arith)

untouched :
    (actions : List Action) (seen : List String) (x : String) (g : Graph)
    → Fresh actions seen
    → contains x seen ≡ true
    → lookup x (add_actions actions g) ≡ lookup x g
unfolding Fresh
untouched [] seen x g f h = refl
untouched (a ∷ rest) seen x g f h = elim (==-cases x a.id) [
  | inl same ↦ absurd (ground (arith, f.0, rw same at h))
  | inr other ↦
      untouched rest (a.id ∷ seen) x (insert a.id (other_dependencies a) g) f.1 (rw (other, h) refl)
      ∙ lookup-insert_ne x a.id (other_dependencies a) g other
]

entry :
    (actions : List Action) (seen : List String) (a : Action) (g : Graph)
    → Fresh actions seen
    → In a actions
    → lookup a.id (add_actions actions g) ≡ some (other_dependencies a)
unfolding Fresh
entry [] seen a g f m = elim m [ ]
entry (b ∷ rest) seen a g f (here e) = rw e (
    untouched rest (b.id ∷ seen) b.id (insert b.id (other_dependencies b) g) f.1
      (rw (==-refl b.id) refl)
    ∙ lookup-insert_self b.id (other_dependencies b) g)
entry (b ∷ rest) seen a g f (there m) =
    entry rest (b.id ∷ seen) a (insert b.id (other_dependencies b) g) f.1 m

-- The ids are distinct, and every action depends on actions of the plan alone, all of which the
-- rank puts before it.
pub record IsRunnable (actions : List Action) : Type 0 where
  pub rank : String → ℕ
  pub distinct : Fresh actions []
  pub known :
      (a : Action) (d : String)
      → In a actions
      → contains d a.dependencies ≡ true
      → contains d (ids actions) ≡ true
  pub before :
      (a : Action) (d : String)
      → In a actions
      → contains d a.dependencies ≡ true
      → rank d < rank a.id

contains-ids :
    (actions : List Action) (a : Action) → In a actions → contains a.id (ids actions) ≡ true
contains-ids [] a m = elim m [ ]
contains-ids (b ∷ rest) a (here e) = rw (e, ==-refl b.id) refl
contains-ids (b ∷ rest) a (there m) = ground (arith, contains-ids rest a m)

module _ (actions : List Action) (distinct : Fresh actions [])
    (closed : unknown_dependency_ids actions ≡ []) (own : self_dependencies actions ≡ []) where
  known_lem :
      (a : Action) (d : String)
      → In a actions
      → contains d a.dependencies ≡ true
      → contains d (ids actions) ≡ true
  unfolding unknown_dependency_ids
  known_lem a d m h = missing_in-known (ids actions) actions a d closed m h

  keys_known :
      (x : String) → contains x (ids actions) ≡ true → contains x (keys (graph_of actions)) ≡ true
  unfolding graph_of
  keys_known x h = rw (contains-keys x actions [], h) refl

  edge :
      (a : Action) (d : String)
      → In a actions
      → contains d a.dependencies ≡ true
      → contains d (edges (graph_of actions) a.id) ≡ true
  unfolding edges graph_of self_dependencies
  edge a d m h =
      rw
        (
          edges,
          entry actions [] a [] distinct m,
          contains-keep (λ d. contains d (keys (add_actions actions []))) d (other_dependencies a),
          contains-keep (λ d. not (d == a.id)) d a.dependencies,
          h,
          contains-keys d actions [],
          known_lem a d m h,
        )
        (elim (==-cases d a.id) [
          | inl same ↦ absurd (ground (arith, self-none actions a own m, rw same at h))
          | inr other ↦ rw other refl
        ])

  IsRunnable-of_rank :
      (rank : String → ℕ)
      → IsRanked rank (edges (graph_of actions)) (keys (graph_of actions))
      → IsRunnable actions
  unfolding IsRanked
  IsRunnable-of_rank rank ranked = record {
    rank = rank;
    distinct = distinct;
    known = known_lem;
    before = λ a d m h. ranked a.id d (keys_known a.id (contains-ids actions a m)) (edge a d m h);
  }

  no_cycle-IsRunnable :
      cycle_blockers actions ≡ [] → duplicate_action_ids actions ≡ [] → IsRunnable actions
  unfolding cycle_blockers
  no_cycle-IsRunnable h dup = elim (search_decides actions) [
    | inl (cycle, q, c) ↦
        absurd (go cycle c.start (c.middle ++ (c.start ∷ [])) c.closed (rw (dup, closed, q) at h))
    | inr (q, (rank, ranked)) ↦ IsRunnable-of_rank rank ranked
  ]
    where
      go :
          (cycle : List String) (x : String) (rest : List String)
          → cycle ≡ x ∷ rest
          → when_any cycle (structural (cyclic cycle)) ≡ []
          → ⊥
      go [] x rest e k = cc
      go (y ∷ cycle) x rest e k = cc

module _ (u : Unicode) where
  no_blockers-IsRunnable : (actions : List Action) → blockers_of u actions ≡ [] → IsRunnable actions
  unfolding blockers_of
  no_blockers-IsRunnable actions h =
      let dups = duplicate_action_ids actions in
      let own = self_dependencies actions in
      let dangling = unknown_dependency_ids actions in
      let h1 = append-nil (when_any dups (structural (duplicate_ids dups))) _ h in
      let h2 = append-nil (when_any own (structural (self_dependent own))) _ h1.1 in
      let h3 = append-nil (when_any dangling (structural (unknown_dependencies dangling))) _ h2.1 in
      let h4 = append-nil (cycle_blockers actions) _ h3.1 in
      let no_dups : dups ≡ [] = when_any-nil dups (structural (duplicate_ids dups)) h1.0 in
      no_cycle-IsRunnable actions
        (duplicates-Fresh actions [] (unfold duplicate_action_ids in no_dups))
        (when_any-nil dangling (structural (unknown_dependencies dangling)) h3.0)
        (when_any-nil own (structural (self_dependent own)) h2.0) h4.0 no_dups

  -- A plan whose readiness report says `ready` is well founded: it has actions, their ids are
  -- distinct, each depends on actions of the plan alone, and some rank puts all dependencies of an
  -- action before it, so that no action waits for itself through others.
  pub ready-IsRunnable :
      (plan : ActionPlan)
      → (evaluate_plan_readiness u plan).ready ≡ true
      → (is_empty plan.actions ≡ false) × IsRunnable plan.actions
  unfolding evaluate_plan_readiness
  ready-IsRunnable plan h = elim (Bool-cases (is_empty plan.actions)) [
    | inl empty ↦ absurd (ground (arith, empty, h))
    | inr some_left ↦ (
      some_left,
      no_blockers-IsRunnable plan.actions
          (is_empty-nil (blockers_of u plan.actions) (rw some_left at h)),
    )
  ]
