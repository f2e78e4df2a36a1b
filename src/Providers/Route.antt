-- ===== src/Providers/Route.antt =====
-- `route_providers` of app/providers/router.py, and `find_compatible_models` of catalog.py. The
-- fresh ids, the texts of reasons, the policy version and the times of the results are left out.
use mr_enderson.Base.{
  String, Bool, ◌&&◌, not, Option, none, some, List, [], ◌∷◌, ◌++◌, ◌==◌, string_eq, subset, keep,
  sorted, codes_le, Outcome, ok, raise, ◌>>=◌, if◌then◌else◌,
}
use mr_enderson.Authority.Identifiers.{codes}
use mr_enderson.Providers.Catalogue.{
  ProviderCapability, provider_capability_eq, ProviderDefinition, ModelDefinition, ProviderError,
  Registry, list_provider_definitions, list_models, effective_capabilities,
}
use mr_enderson.Providers.Routing.{
  OptimizationPolicy, RoutingRequest, CandidateEvaluation, SelectionRecord, SelectionResult,
  selected, no_eligible_provider, RoutingError, registry_error, Snapshots, evaluate_candidate,
  apply_optimization, by_key, check_result,
}

abbrev pub lift_registry {ℓ} : {A : Type ℓ} → Outcome ProviderError A → Outcome RoutingError A
lift_registry (ok a) = ok a
lift_registry (raise e) = raise (registry_error e)

module _ (request : RoutingRequest) (snapshots : Snapshots) (allow_degraded : Bool) where
  -- The inner loop of the evaluation, over the models of one provider.
  unfoldable pub evaluate_models :
      ProviderDefinition → List ModelDefinition → Outcome RoutingError (List CandidateEvaluation)
  evaluate_models d [] = ok []
  evaluate_models d (m ∷ rest) = do
    e ← evaluate_candidate d m request snapshots allow_degraded
    es ← evaluate_models d rest
    ok (e ∷ es)

  -- The outer loop.
  unfoldable pub evaluate_providers :
      {Provider : Type 0}
      → Registry Provider
      → List ProviderDefinition
      → Outcome RoutingError (List CandidateEvaluation)
  unfolding evaluate_models
  evaluate_providers registry [] = ok []
  evaluate_providers registry (d ∷ rest) = do
    models ← lift_registry (list_models registry d.provider_id)
    es ← evaluate_models d models
    more ← evaluate_providers registry rest
    ok (es ++ more)

abbrev pub is_eligible : CandidateEvaluation → Bool
is_eligible e = e.eligible

abbrev pub record_of : RoutingRequest → CandidateEvaluation → SelectionRecord
record_of request winner = record {
  routing_request_id = request.routing_request_id;
  provider_id = winner.provider_id;
  model_id = winner.model_id;
  effective = winner.effective;
  trusted_health = winner.trusted_health;
  trusted_cost = winner.trusted_cost;
}

abbrev pub result_of :
    RoutingRequest
    → OptimizationPolicy
    → Bool
    → List CandidateEvaluation
    → Option CandidateEvaluation
    → SelectionResult
result_of request optimization allow_degraded evaluations none = record {
  routing_request_id = request.routing_request_id;
  status = no_eligible_provider;
  chosen = none;
  evaluations = evaluations;
  optimization = optimization;
  allow_degraded_health = allow_degraded;
}
result_of request optimization allow_degraded evaluations (some winner) = record {
  routing_request_id = request.routing_request_id;
  status = selected;
  chosen = some (record_of request winner);
  evaluations = evaluations;
  optimization = optimization;
  allow_degraded_health = allow_degraded;
}

abbrev pub first_of : List CandidateEvaluation → Option CandidateEvaluation
first_of [] = none
first_of (e ∷ _) = some e

-- The winner, if any: the first in the order of the ids among what the optimization leaves.
unfoldable pub winner_of :
    OptimizationPolicy → List CandidateEvaluation → Option CandidateEvaluation
winner_of optimization evaluations = elim (keep is_eligible evaluations) [
  | [] ↦ none
  | e ∷ es ↦ first_of (sorted by_key (apply_optimization (e ∷ es) optimization))
]

unfoldable pub route_providers :
    {Provider : Type 0}
    → Registry Provider
    → RoutingRequest
    → Snapshots
    → OptimizationPolicy
    → (allow_degraded : Bool) → Outcome RoutingError SelectionResult
unfolding evaluate_providers winner_of
route_providers registry request snapshots optimization allow_degraded = do
  evaluations ←
      evaluate_providers request snapshots allow_degraded registry
        (list_provider_definitions registry)
  check_result (
      result_of request optimization allow_degraded evaluations
        (winner_of optimization evaluations))

pub record CompatibleModel : Type 0 where
  pub provider_id : String
  pub model_id : String
  pub effective : List ProviderCapability

abbrev pub compatible_by_key : CompatibleModel → CompatibleModel → Bool
compatible_by_key a b =
    if a.provider_id == b.provider_id
    then codes_le (codes a.model_id) (codes b.model_id)
    else codes_le (codes a.provider_id) (codes b.provider_id)

abbrev pub compatible_in :
    List ProviderCapability → ProviderDefinition → List ModelDefinition → List CompatibleModel
compatible_in required d [] = []
compatible_in required d (m ∷ rest) =
    let more = compatible_in required d rest in
    let effective = effective_capabilities d.capabilities m.capabilities in
    if subset required effective
    then (record { provider_id = d.provider_id; model_id = m.model_id; effective = effective })
      ∷ more
    else more

unfoldable pub compatible_of :
    {Provider : Type 0}
    → Registry Provider
    → List ProviderCapability
    → (enabled_only : Bool) → List ProviderDefinition
    → Outcome ProviderError (List CompatibleModel)
compatible_of registry required enabled_only [] = ok []
compatible_of registry required enabled_only (d ∷ rest) =
    let more = compatible_of registry required enabled_only rest in
    if enabled_only && not d.enabled then more else do
      models ← list_models registry d.provider_id
      others ← more
      ok (compatible_in required d models ++ others)

unfoldable pub find_compatible_models :
    {Provider : Type 0}
    → Registry Provider
    → List ProviderCapability
    → Bool
    → Outcome ProviderError (List CompatibleModel)
unfolding compatible_of
find_compatible_models registry required enabled_only = do
  found ← compatible_of registry required enabled_only (list_provider_definitions registry)
  ok (sorted compatible_by_key found)
