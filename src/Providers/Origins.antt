-- ===== src/Providers/Origins.antt =====
-- Where the evaluations of the router come from.
use mr_enderson.Base.{
  bind_ok, ◌≡◌, refl, ◌∙◌, inl, inr, Bool, true, false, not, List, [], ◌∷◌, ◌++◌, string_eq, In,
  here, there, In-uncons, In-append, Outcome, ok, raise, raise_if, ◌>>◌,
}
use mr_enderson.Providers.Catalogue.{
  provider_capability_eq, ProviderDefinition, ModelDefinition, ProviderError, model_key_eq,
  Registry, list_provider_definitions, list_models,
}
use mr_enderson.Providers.Routing.{
  OptimizationPolicy, RoutingRequest, CandidateEvaluation, SelectionResult, invalid_result,
  status_matches, unique_evaluations, choice_matches, Snapshots, evaluation_of, evaluate_candidate,
  check_result,
}
use mr_enderson.Providers.Route.{
  lift_registry, evaluate_models, evaluate_providers, result_of, winner_of, route_providers,
}
use mr_enderson.Providers.Winner.{evaluate_candidate_ok}

lift_ok {ℓ} : {A : Type ℓ} (m : Outcome ProviderError A) (a : A) → lift_registry m ≡ ok a → m ≡ ok a
lift_ok (ok x) a h = cc (h)
lift_ok (raise e) a h = cc

checked_ok : (r result : SelectionResult) → check_result r ≡ ok result → result ≡ r
unfolding check_result
checked_ok r result h =
    go (not (status_matches r.status r.chosen)) (not (unique_evaluations r.evaluations []))
      (not (choice_matches r.chosen r.evaluations)) h
  where
    go :
        (a b c : Bool)
        → (raise_if a invalid_result
            >> (raise_if b invalid_result >> (raise_if c invalid_result >> ok r)))
          ≡ ok result
        → result ≡ r
    go true b c k = cc
    go false true c k = cc
    go false false true k = cc
    go false false false k = cc (k)

module _ {Provider : Type 0} (registry : Registry Provider) (request : RoutingRequest)
    (snapshots : Snapshots) (allow_degraded : Bool) where
  -- The evaluation is that of a registered provider and one of its models.
  pub record IsFrom (e : CandidateEvaluation) : Type 0 where
    pub definition : ProviderDefinition
    pub model : ModelDefinition
    pub models : List ModelDefinition
    pub registered : In definition (list_provider_definitions registry)
    pub listed : list_models registry definition.provider_id ≡ ok models
    pub offered : In model models
    pub evaluated : e ≡ evaluation_of definition model request snapshots allow_degraded

  pub models_origin :
      (d : ProviderDefinition) (ms : List ModelDefinition) (es : List CandidateEvaluation)
      → evaluate_models request snapshots allow_degraded d ms ≡ ok es
      → (e : CandidateEvaluation) → In e es
      → (m : ModelDefinition) × In m ms × (e ≡ evaluation_of d m request snapshots allow_degraded)
  unfolding evaluate_models
  models_origin d [] es h e k = let same : [] ≡ es = cc (h) in elim (rw (← same) at k) [ ]
  models_origin d (m ∷ ms) es h e k =
      let (first, one, more) =
        bind_ok (evaluate_candidate d m request snapshots allow_degraded) _ es h in
      let (rest, others, last) =
        bind_ok (evaluate_models request snapshots allow_degraded d ms) _ es more in
      let same : (first ∷ rest) ≡ es = cc (last) in
      let here_is : first ≡ evaluation_of d m request snapshots allow_degraded =
        cc (one, evaluate_candidate_ok d m request snapshots allow_degraded) in
      elim (In-uncons e first rest (rw (← same) at k)) [
        | inl f ↦ (m, here refl, f ∙ here_is)
        | inr i ↦ let (n, inside, f) = models_origin d ms rest others e i in (n, there inside, f)
      ]

  pub providers_origin :
      (ds : List ProviderDefinition) (es : List CandidateEvaluation)
      → ((d : ProviderDefinition) → In d ds → In d (list_provider_definitions registry))
      → evaluate_providers request snapshots allow_degraded registry ds ≡ ok es
      → (e : CandidateEvaluation) → In e es
      → IsFrom e
  unfolding evaluate_providers
  providers_origin [] es known h e k = let same : [] ≡ es = cc (h) in elim (rw (← same) at k) [ ]
  providers_origin (d ∷ ds) es known h e k =
      let (ms, listing, more) =
        bind_ok (lift_registry (list_models registry d.provider_id)) _ es h in
      let (first, one, more') =
        bind_ok (evaluate_models request snapshots allow_degraded d ms) _ es more in
      let (rest, others, last) =
        bind_ok (evaluate_providers request snapshots allow_degraded registry ds) _ es more' in
      let same : (first ++ rest) ≡ es = cc (last) in
      elim (In-append e first rest (rw (← same) at k)) [
        | inr i ↦ providers_origin ds rest (λ x j. known x (there j)) others e i
        | inl i ↦
            let (m, inside, f) = models_origin d ms first one e i in
            record {
              definition = d;
              model = m;
              models = ms;
              registered = known d (here refl);
              listed = lift_ok (list_models registry d.provider_id) ms listing;
              offered = inside;
              evaluated = f;
            }
      ]

  pub route_inv :
      (optimization : OptimizationPolicy) (result : SelectionResult)
      → route_providers registry request snapshots optimization allow_degraded ≡ ok result
      → (es : List CandidateEvaluation) × (evaluate_providers request snapshots allow_degraded
            registry
            (list_provider_definitions registry)
          ≡ ok es)
        × (result ≡ result_of request optimization allow_degraded es (winner_of optimization es))
  unfolding route_providers
  route_inv optimization result h =
      let (es, found, checked) =
        bind_ok
          (evaluate_providers request snapshots allow_degraded registry
            (list_provider_definitions registry))
          _ result h in
      (
        es,
        found,
        checked_ok (result_of request optimization allow_degraded es (winner_of optimization es))
            result checked,
      )
