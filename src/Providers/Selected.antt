-- ===== src/Providers/Selected.antt =====
-- The selection: who can be selected, and when nobody is.
use mr_enderson.Base.{
  is_empty-nil, ℕ, ◌≡◌, refl, sym, ap, subst, ◌∙◌, Bool, true, Option, none, some, List, [], ◌∷◌,
  string_eq, keep, In, here, keep-In, In-keep, In-sorted, sorted, sorted-In, ok,
}
use mr_enderson.Providers.Catalogue.{
  provider_capability_eq, model_key_eq, Registry, list_provider_definitions,
}
use mr_enderson.Providers.Routing.{
  OptimizationPolicy, deterministic, lowest_cost, RoutingRequest, CandidateEvaluation,
  SelectionRecord, SelectionResult, Snapshots, reason_codes_of, evaluation_of, apply_optimization,
  by_key,
}
use mr_enderson.Providers.Route.{
  evaluate_providers, is_eligible, record_of, result_of, first_of, winner_of, route_providers,
}
use mr_enderson.Providers.Constraints.{MeetsConstraints, no_codes-MeetsConstraints}
use mr_enderson.Providers.Winner.{optimized_lem, lowest_left, IsCheapest}
use mr_enderson.Providers.Origins.{IsFrom, providers_origin, route_inv}

pub winner_inv :
    (optimization : OptimizationPolicy) (es : List CandidateEvaluation) (w : CandidateEvaluation)
    → winner_of optimization es ≡ some w
    → In w (apply_optimization (keep is_eligible es) optimization)
unfolding winner_of
winner_inv optimization es w h = go (keep is_eligible es) h
  where
    first : (l : List CandidateEvaluation) → first_of l ≡ some w → In w l
    first [] k = cc
    first (x ∷ l) k = here (cc (k))

    go :
        (l : List CandidateEvaluation)
        → (elim l [
          | [] ↦ none
          | e ∷ es ↦ first_of (sorted by_key (apply_optimization (e ∷ es) optimization))
        ])
          ≡ some w
        → In w (apply_optimization l optimization)
    go [] k = cc
    go (e ∷ l) k =
        sorted-In by_key w (apply_optimization (e ∷ l) optimization)
          (first (sorted by_key (apply_optimization (e ∷ l) optimization)) k)

no_winner :
    (optimization : OptimizationPolicy) (es : List CandidateEvaluation) (x : CandidateEvaluation)
    → winner_of optimization es ≡ none
    → In x (keep is_eligible es)
    → (w : CandidateEvaluation) → In w (apply_optimization (keep is_eligible es) optimization)
    → ⊥
unfolding winner_of
no_winner optimization es x h m w k = go (keep is_eligible es) m k h
  where
    first : (l : List CandidateEvaluation) → In w l → first_of l ≡ none → ⊥
    first [] i q = elim i [ ]
    first (y ∷ l) i q = cc

    go :
        (l : List CandidateEvaluation)
        → In x l
        → In w (apply_optimization l optimization)
        → (elim l [
          | [] ↦ none
          | e ∷ es ↦ first_of (sorted by_key (apply_optimization (e ∷ es) optimization))
        ])
          ≡ none
        → ⊥
    go [] i j q = elim i [ ]
    go (e ∷ l) i j q =
        first (sorted by_key (apply_optimization (e ∷ l) optimization))
          (In-sorted by_key w (apply_optimization (e ∷ l) optimization) j) q

module _ {Provider : Type 0} (registry : Registry Provider) (request : RoutingRequest)
    (snapshots : Snapshots) (optimization : OptimizationPolicy) (allow_degraded : Bool) where
  -- Why a provider and a model were selected.
  pub record IsJustified (result : SelectionResult) (s : SelectionRecord) : Type 0 where
    pub winner : CandidateEvaluation
    pub origin : IsFrom registry request snapshots allow_degraded winner
    pub names :
        (s.provider_id ≡ origin.definition.provider_id) × (s.model_id ≡ origin.model.model_id)
    pub meets : MeetsConstraints request snapshots allow_degraded origin.definition origin.model
    pub considered : In winner result.evaluations
    pub cheapest :
        optimization ≡ lowest_cost → IsCheapest (keep is_eligible result.evaluations) winner

  pub same_evaluations :
      (es : List CandidateEvaluation) (o : Option CandidateEvaluation)
      → (result_of request optimization allow_degraded es o).evaluations ≡ es
  same_evaluations es none = refl
  same_evaluations es (some w) = refl

  -- A selected provider and model are registered together and meet every hard constraint of the
  -- request; under LOWEST_COST the cost of the model is known, and no eligible candidate with a
  -- known cost is cheaper.
  pub selection-IsJustified :
      (result : SelectionResult) (s : SelectionRecord)
      → route_providers registry request snapshots optimization allow_degraded ≡ ok result
      → result.chosen ≡ some s
      → IsJustified result s
  unfolding evaluation_of
  selection-IsJustified result s h k =
      let (es, found, shape) =
        route_inv registry request snapshots allow_degraded optimization result h in
      go es found shape (winner_of optimization es) refl (ap (λ r. r.chosen) (sym shape) ∙ k)
    where
      go :
          (es : List CandidateEvaluation)
          → evaluate_providers request snapshots allow_degraded registry
              (list_provider_definitions registry)
            ≡ ok es
          → result ≡ result_of request optimization allow_degraded es (winner_of optimization es)
          → (o : Option CandidateEvaluation) → winner_of optimization es ≡ o
          → (result_of request optimization allow_degraded es o).chosen ≡ some s
          → IsJustified result s
      go es found shape none q c = cc
      go es found shape (some w) q c =
          let (kept, best) =
            optimized_lem optimization (keep is_eligible es) w (winner_inv optimization es w q) in
          let (inside, ok_now) = keep-In is_eligible w es kept in
          let origin =
            providers_origin registry request snapshots allow_degraded
              (list_provider_definitions registry) es (λ d i. i) found w inside in
          let listed : result.evaluations ≡ es =
            ap (λ r. r.evaluations) shape ∙ same_evaluations es (winner_of optimization es) in
          let same : record_of request w ≡ s = cc (c) in
          let codes_nil =
            is_empty-nil
              (reason_codes_of origin.definition origin.model request snapshots allow_degraded)
              (sym (ap (λ e. e.eligible) origin.evaluated) ∙ ok_now) in
          record {
            winner = w;
            origin = origin;
            names = (
              ap (λ r. r.provider_id) (sym same) ∙ ap (λ e. e.provider_id) origin.evaluated,
              ap (λ r. r.model_id) (sym same) ∙ ap (λ e. e.model_id) origin.evaluated,
            );
            meets =
                no_codes-MeetsConstraints origin.definition origin.model request snapshots
                  allow_degraded codes_nil;
            considered = rw listed inside;
            cheapest = rw listed best;
          }

  -- Where nobody is selected although a candidate is eligible, the policy is LOWEST_COST and no
  -- eligible candidate has a known cost.
  pub unselected_lem :
      (result : SelectionResult) (e : CandidateEvaluation)
      → route_providers registry request snapshots optimization allow_degraded ≡ ok result
      → result.chosen ≡ none
      → In e result.evaluations
      → e.eligible ≡ true
      → (optimization ≡ lowest_cost) × (e.trusted_cost ≡ none)
  unselected_lem result e h k m good =
      let (es, found, shape) =
        route_inv registry request snapshots allow_degraded optimization result h in
      let inside : In e (keep is_eligible es) =
        In-keep is_eligible e es
          (subst (λ l. In e l)
            (ap (λ r. r.evaluations) shape ∙ same_evaluations es (winner_of optimization es)) m)
          good in
      go es inside (nobody (winner_of optimization es) es (ap (λ r. r.chosen) (sym shape) ∙ k))
    where
      nobody :
          (o : Option CandidateEvaluation) (es : List CandidateEvaluation)
          → (result_of request optimization allow_degraded es o).chosen ≡ none
          → o ≡ none
      nobody none es q = refl
      nobody (some w) es q = cc

      go :
          (es : List CandidateEvaluation)
          → In e (keep is_eligible es)
          → winner_of optimization es ≡ none
          → (optimization ≡ lowest_cost) × (e.trusted_cost ≡ none)
      go es inside q = by_policy optimization q
        where
          by_cost :
              (o : Option ℕ)
              → e.trusted_cost ≡ o
              → winner_of lowest_cost es ≡ none
              → e.trusted_cost ≡ none
          by_cost none p r = p
          by_cost (some c) p r =
              let (w, left) = lowest_left (keep is_eligible es) e c inside p in
              absurd (no_winner lowest_cost es e r inside w left)

          by_policy :
              (o : OptimizationPolicy)
              → winner_of o es ≡ none
              → (o ≡ lowest_cost) × (e.trusted_cost ≡ none)
          by_policy deterministic r =
              absurd (no_winner deterministic es e r inside e (unfold apply_optimization in inside))
          by_policy lowest_cost r = (refl, by_cost e.trusted_cost refl r)
