-- ===== src/Providers/Winner.antt =====
-- What the router guarantees of the provider and model that it selects.
use mr_enderson.Base.{
  ℕ, ◌≤◌, ◌≡◌, refl, inl, inr, Bool, true, false, Option, none, some, List, [], ◌∷◌, arith,
  string_eq, is_empty, keep, In, here, there, In-uncons, keep-In, In-keep, ok, Bool-cases, ltb,
  nat_beq, if◌then◌else◌,
}
use mr_enderson.Providers.Catalogue.{
  provider_capability_eq, ProviderDefinition, ModelDefinition, model_key_eq,
}
use mr_enderson.Providers.Routing.{
  OptimizationPolicy, deterministic, lowest_cost, RoutingRequest, CandidateEvaluation, Snapshots,
  reason_codes_of, check_evaluation, evaluation_of, evaluate_candidate, known_costs, least,
  costs_exactly, apply_optimization,
}

-- A candidate's own consistency check never fails.
pub evaluate_candidate_ok :
    (d : ProviderDefinition) (m : ModelDefinition) (request : RoutingRequest)
    (snapshots : Snapshots) (allow_degraded : Bool)
    → evaluate_candidate d m request snapshots allow_degraded
      ≡ ok (evaluation_of d m request snapshots allow_degraded)
unfolding evaluate_candidate check_evaluation evaluation_of
evaluate_candidate_ok d m request snapshots allow_degraded =
    elim (Bool-cases (is_empty (reason_codes_of d m request snapshots allow_degraded))) [
      | inl e ↦ rw e refl
      | inr e ↦ rw e refl
    ]

-- The known costs, and the least of them.
pub costs_of :
    (es : List CandidateEvaluation) (e : CandidateEvaluation) (c : ℕ)
    → In e es
    → e.trusted_cost ≡ some c
    → In c (known_costs es)
costs_of [] e c m h = elim m [ ]
costs_of (x ∷ es) e c (here same) h = rw (← same, h) (here refl)
costs_of (x ∷ es) e c (there m) h = go x.trusted_cost (costs_of es e c m h)
  where
    go :
        (o : Option ℕ)
        → In c (known_costs es)
        → In c (elim o [ none ↦ known_costs es | some cost ↦ cost ∷ known_costs es ])
    go none k = k
    go (some d) k = there k

least_le : (n : ℕ) (ns : List ℕ) → least n ns ≤ n
least_le n [] = omega arith
least_le n (m ∷ ms) = elim (Bool-cases (ltb m n)) [
  | inl lt ↦ rw lt (ground (arith, lt, least_le m ms))
  | inr ge ↦ rw ge (least_le n ms)
]

least_le_all : (n : ℕ) (ns : List ℕ) (c : ℕ) → In c (n ∷ ns) → least n ns ≤ c
least_le_all n ns c (here e) = rw e (least_le n ns)
least_le_all n [] c (there m) = elim m [ ]
least_le_all n (x ∷ ns) c (there m) = elim (In-uncons c x ns m) [
  | inr k ↦ least_le_all (if ltb x n then x else n) ns c (there k)
  | inl e ↦ elim (Bool-cases (ltb x n)) [
    | inl lt ↦ rw (e, lt) (least_le x ns)
    | inr ge ↦ rw (e, ge) (ground (arith, ge, least_le n ns))
  ]
]

-- The cost of `w` is known, and no candidate whose cost is known is cheaper.
unfoldable pub IsCheapest : List CandidateEvaluation → CandidateEvaluation → Type 0
IsCheapest es w =
    (c : ℕ) × (w.trusted_cost ≡ some c)
    × ((e : CandidateEvaluation) (c' : ℕ) → In e es → e.trusted_cost ≡ some c' → c ≤ c')

exact_cost : (n : ℕ) (e : CandidateEvaluation) → costs_exactly n e ≡ true → e.trusted_cost ≡ some n
exact_cost n e h = go e.trusted_cost h
  where
    go : (o : Option ℕ) → (elim o [ none ↦ false | some cost ↦ nat_beq cost n ]) ≡ true → o ≡ some n
    go none k = cc
    go (some c) k = ground (arith, k)

pub cheapest_lem :
    (es : List CandidateEvaluation) (w : CandidateEvaluation)
    → In w (apply_optimization es lowest_cost)
    → In w es × IsCheapest es w
unfolding apply_optimization IsCheapest
cheapest_lem es w m = go (known_costs es) (λ e c k h. costs_of es e c k h) m
  where
    go :
        (costs : List ℕ)
        → ((e : CandidateEvaluation) (c : ℕ) → In e es → e.trusted_cost ≡ some c → In c costs)
        → In w (elim costs [ [] ↦ [] | n ∷ ns ↦ keep (costs_exactly (least n ns)) es ])
        → In w es × IsCheapest es w
    go [] known m = elim m [ ]
    go (n ∷ ns) known m =
        let (inside, exact) = keep-In (costs_exactly (least n ns)) w es m in
        (
          inside,
          (
            least n ns,
            exact_cost (least n ns) w exact,
            λ e c k h. least_le_all n ns c (known e c k h),
          ),
        )

least-In : (n : ℕ) (ns : List ℕ) → In (least n ns) (n ∷ ns)
least-In n [] = here refl
least-In n (m ∷ ms) = elim (Bool-cases (ltb m n)) [
  | inl lt ↦ rw lt (there (least-In m ms))
  | inr ge ↦ rw ge (elim (In-uncons (least n ms) n ms (least-In n ms)) [
    | inl e ↦ here e
    | inr k ↦ there (there k)
  ])
]

priced :
    (es : List CandidateEvaluation) (c : ℕ)
    → In c (known_costs es)
    → (e : CandidateEvaluation) × In e es × (e.trusted_cost ≡ some c)
priced [] c m = elim m [ ]
priced (x ∷ es) c m = go x.trusted_cost refl m (λ k. priced es c k)
  where
    go :
        (o : Option ℕ)
        → x.trusted_cost ≡ o
        → In c (elim o [ none ↦ known_costs es | some cost ↦ cost ∷ known_costs es ])
        → (In c (known_costs es) → (e : CandidateEvaluation) × In e es × (e.trusted_cost ≡ some c))
        → (e : CandidateEvaluation) × In e (x ∷ es) × (e.trusted_cost ≡ some c)
    go none q k ih = let (e, i, h) = ih k in (e, there i, h)
    go (some d) q k ih = elim (In-uncons c d (known_costs es) k) [
      | inl same ↦ (x, here refl, rw same q)
      | inr j ↦ let (e, i, h) = ih j in (e, there i, h)
    ]

-- Where a cost is known, LOWEST_COST leaves a candidate.
pub lowest_left :
    (es : List CandidateEvaluation) (e : CandidateEvaluation) (c : ℕ)
    → In e es
    → e.trusted_cost ≡ some c
    → (w : CandidateEvaluation) × In w (apply_optimization es lowest_cost)
unfolding apply_optimization
lowest_left es e c m h = go (known_costs es) (costs_of es e c m h) (λ d k. priced es d k)
  where
    go :
        (costs : List ℕ)
        → In c costs
        → ((d : ℕ) → In d costs → (w : CandidateEvaluation) × In w es × (w.trusted_cost ≡ some d))
        → (w : CandidateEvaluation) × In w
            (elim costs [ [] ↦ [] | n ∷ ns ↦ keep (costs_exactly (least n ns)) es ])
    go [] k from = elim k [ ]
    go (n ∷ ns) k from =
        let (w, inside, price) = from (least n ns) (least-In n ns) in
        (w, In-keep (costs_exactly (least n ns)) w es inside (rw price (ground arith)))

pub optimized_lem :
    (optimization : OptimizationPolicy) (es : List CandidateEvaluation) (w : CandidateEvaluation)
    → In w (apply_optimization es optimization)
    → In w es × (optimization ≡ lowest_cost → IsCheapest es w)
unfolding apply_optimization
optimized_lem optimization es w m = go optimization m
  where
    go :
        (o : OptimizationPolicy)
        → In w (apply_optimization es o)
        → In w es × (o ≡ lowest_cost → IsCheapest es w)
    go deterministic k = (k, λ e. cc)
    go lowest_cost k = let (inside, best) = cheapest_lem es w k in (inside, λ e. best)
