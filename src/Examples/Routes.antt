-- ===== src/Examples/Routes.antt =====
-- The router over two models of one provider.
use mr_enderson.Base.{
  List, ℕ, ◌≡◌, refl, true, false, [], ◌∷◌, some, none, Option, ok, here, sorted,
}
use mr_enderson.Schemas.{null}
use mr_enderson.Providers.Catalogue.{
  ProviderDefinition, ModelDefinition, Registry, reasoning, coding, register_provider,
  validate_models, has_provider, list_provider_definitions, list_models,
}
use mr_enderson.Providers.Routing.{
  cloud_allowed, healthy, lowest_cost, selected, no_eligible_provider, RoutingRequest,
  SelectionResult, SelectionRecord, CandidateEvaluation, Snapshots, reason_codes_of,
  check_evaluation, evaluation_of, evaluate_candidate, apply_optimization, check_result,
}
use mr_enderson.Providers.Route.{evaluate_models, evaluate_providers, winner_of, route_providers}
use mr_enderson.Providers.Registered.{IsRegistered, register-IsRegistered}
use mr_enderson.Providers.Total.{register_each, empty_registry, route_returns}
use mr_enderson.Providers.Selected.{IsJustified, selection-IsJustified, unselected_lem}

abbrev house : ProviderDefinition
house = record {
  provider_id = "house";
  display_name = "House";
  provider_type = "local";
  enabled = true;
  capabilities = reasoning ∷ coding ∷ [];
  privacy_classification = "INTERNAL";
  metadata = null;
}

abbrev large : ModelDefinition
large = record {
  model_id = "large";
  provider_id = "house";
  display_name = "Large";
  capabilities = reasoning ∷ coding ∷ [];
  context_window = none;
  supports_structured_output = true;
  supports_streaming = false;
  metadata = null;
}

abbrev small : ModelDefinition
small = record large { model_id = "small"; capabilities = reasoning ∷ [] }

abbrev nobody : Registry Unit
nobody = record { entries = []; models = [] }

abbrev one_provider : Registry Unit
one_provider = record {
  entries =
      ("house", record { provider = tt; definition = house; models = small ∷ large ∷ [] }) ∷ [];
  models = (("house", "small"), small) ∷ (("house", "large"), large) ∷ [];
}

abbrev request : RoutingRequest
request = record {
  routing_request_id = "q1";
  required_capabilities = reasoning ∷ [];
  privacy_requirement = cloud_allowed;
  max_estimated_cost = some 10;
  allowed_provider_ids = none;
  denied_provider_ids = [];
}

abbrev prices : Snapshots
prices = record {
  locality = [];
  health = ("house", healthy) ∷ [];
  cost = (("house", "large"), 7) ∷ (("house", "small"), 2) ∷ [];
}

abbrev large_evaluation : CandidateEvaluation
large_evaluation = record {
  provider_id = "house";
  model_id = "large";
  eligible = true;
  reason_codes = [];
  effective = reasoning ∷ coding ∷ [];
  trusted_cost = some 7;
  trusted_health = some healthy;
}

abbrev small_evaluation : CandidateEvaluation
small_evaluation = record large_evaluation {
  model_id = "small";
  effective = reasoning ∷ [];
  trusted_cost = some 2;
}

abbrev choice : SelectionRecord
choice = record {
  routing_request_id = "q1";
  provider_id = "house";
  model_id = "small";
  effective = reasoning ∷ [];
  trusted_health = some healthy;
  trusted_cost = some 2;
}

abbrev routed : SelectionResult
routed = record {
  routing_request_id = "q1";
  status = selected;
  chosen = some choice;
  evaluations = large_evaluation ∷ small_evaluation ∷ [];
  optimization = lowest_cost;
  allow_degraded_health = false;
}

registered : register_provider nobody tt house (small ∷ large ∷ []) ≡ ok one_provider
unfolding register_provider validate_models has_provider
registered = refl

small-chosen : route_providers one_provider request prices lowest_cost false ≡ ok routed
unfolding route_providers evaluate_providers evaluate_models evaluate_candidate check_evaluation
    evaluation_of reason_codes_of apply_optimization check_result winner_of
    list_provider_definitions list_models sorted
small-chosen = refl

-- Without prices and without a limit nobody is the cheapest.
abbrev unlimited : RoutingRequest
unlimited = record request { max_estimated_cost = none }

abbrev unpriced : Snapshots
unpriced = record prices { cost = [] }

abbrev unrouted : SelectionResult
unrouted = record routed {
  status = no_eligible_provider;
  chosen = none;
  evaluations =
      record large_evaluation { trusted_cost = none }
      ∷ record small_evaluation { trusted_cost = none }
      ∷ [];
}

nobody-chosen : route_providers one_provider unlimited unpriced lowest_cost false ≡ ok unrouted
unfolding route_providers evaluate_providers evaluate_models evaluate_candidate check_evaluation
    evaluation_of reason_codes_of apply_optimization check_result winner_of
    list_provider_definitions list_models sorted
nobody-chosen = refl

register-IsRegistered_example : IsRegistered nobody one_provider tt house (small ∷ large ∷ [])
register-IsRegistered_example =
    register-IsRegistered nobody one_provider tt house (small ∷ large ∷ []) registered

selection-IsJustified_example :
    IsJustified one_provider request prices lowest_cost false routed choice
selection-IsJustified_example =
    selection-IsJustified one_provider request prices lowest_cost false routed choice small-chosen
      refl

abbrev unknown_cost : Option ℕ
unknown_cost = none

unselected_lem_example : (lowest_cost ≡ lowest_cost) × (unknown_cost ≡ none)
unselected_lem_example =
    unselected_lem one_provider unlimited unpriced lowest_cost false unrouted
      (record large_evaluation { trusted_cost = none }) nobody-chosen refl (here refl) refl

abbrev batches : List (Unit {0} × (ProviderDefinition × List ModelDefinition))
batches = (tt, (house, small ∷ large ∷ [])) ∷ (tt, (house, [])) ∷ []

route_returns_example :
    (result : SelectionResult) × (route_providers
        (register_each batches empty_registry)
        request
        prices
        lowest_cost
        false
      ≡ ok result)
route_returns_example = route_returns request prices lowest_cost false batches
