-- ===== src/Providers/Routing.antt =====
-- The router: `route_providers` of app/providers/router.py, the contracts of routing_contracts.py
-- with their consistency checks, and `find_compatible_models` of catalog.py. Costs, decimals in the
-- source, are scaled to naturals. The snapshots are dicts; an omitted one is empty.
use mr_enderson.Base.{
  ℕ, String, Bool, true, false, ◌&&◌, ◌||◌, not, Option, none, some, List, [], ◌∷◌, ◌++◌, ◌==◌,
  string_eq, contains, subset, keep, is_empty, Dict, lookup, codes_le, ltb, nat_beq, Outcome, ok,
  raise_if, ◌>>◌, if◌then◌else◌,
}
use mr_enderson.Authority.Identifiers.{codes}
use mr_enderson.Providers.Catalogue.{
  ProviderCapability, provider_capability_eq, ProviderDefinition, ModelDefinition, ProviderError,
  ModelKey, model_key_eq, effective_capabilities,
}

pub data PrivacyRequirement : Type 0 where
  cloud_allowed local_only : PrivacyRequirement

pub data ProviderLocality : Type 0 where
  local cloud : ProviderLocality

pub data HealthState : Type 0 where
  healthy degraded unavailable : HealthState

pub data OptimizationPolicy : Type 0 where
  deterministic lowest_cost : OptimizationPolicy

pub data RoutingReasonCode : Type 0 where
  provider_disabled provider_denied provider_not_allowed capability_mismatch : RoutingReasonCode
  locality_mismatch health_unavailable health_unknown : RoutingReasonCode
  health_degraded_not_allowed cost_exceeded cost_unknown : RoutingReasonCode

pub data SelectionStatus : Type 0 where
  selected no_eligible_provider : SelectionStatus

pub record RoutingRequest : Type 0 where
  pub routing_request_id : String
  pub required_capabilities : List ProviderCapability
  pub privacy_requirement : PrivacyRequirement
  pub max_estimated_cost : Option ℕ
  pub allowed_provider_ids : Option (List String)
  pub denied_provider_ids : List String

pub record CandidateEvaluation : Type 0 where
  pub provider_id : String
  pub model_id : String
  pub eligible : Bool
  pub reason_codes : List RoutingReasonCode
  pub effective : List ProviderCapability
  pub trusted_cost : Option ℕ
  pub trusted_health : Option HealthState

pub record SelectionRecord : Type 0 where
  pub routing_request_id : String
  pub provider_id : String
  pub model_id : String
  pub effective : List ProviderCapability
  pub trusted_health : Option HealthState
  pub trusted_cost : Option ℕ

pub record SelectionResult : Type 0 where
  pub routing_request_id : String
  pub status : SelectionStatus
  pub chosen : Option SelectionRecord
  pub evaluations : List CandidateEvaluation
  pub optimization : OptimizationPolicy
  pub allow_degraded_health : Bool

-- A validation error of the contracts, or an error of the registry.
pub data RoutingError : Type 0 where
  invalid_evaluation invalid_result : RoutingError
  registry_error : ProviderError → RoutingError

-- The trusted snapshots.
pub record Snapshots : Type 0 where
  pub locality : Dict String ProviderLocality
  pub health : Dict String HealthState
  pub cost : Dict ModelKey ℕ

abbrev pub when_code : Bool → RoutingReasonCode → List RoutingReasonCode
when_code test code = if test then code ∷ [] else []

abbrev pub not_allowed : Option (List String) → String → Bool
not_allowed none provider_id = false
not_allowed (some allowed) provider_id = not (contains provider_id allowed)

abbrev pub access_codes : RoutingRequest → String → List RoutingReasonCode
access_codes request provider_id =
    if contains provider_id request.denied_provider_ids
    then provider_denied ∷ []
    else when_code (not_allowed request.allowed_provider_ids provider_id) provider_not_allowed

abbrev pub locality_codes : PrivacyRequirement → Option ProviderLocality → List RoutingReasonCode
locality_codes cloud_allowed _ = []
locality_codes local_only (some local) = []
locality_codes local_only _ = locality_mismatch ∷ []

abbrev pub health_codes : Bool → Option HealthState → List RoutingReasonCode
health_codes allow_degraded none = health_unknown ∷ []
health_codes allow_degraded (some unavailable) = health_unavailable ∷ []
health_codes allow_degraded (some degraded) =
    when_code (not allow_degraded) health_degraded_not_allowed
health_codes allow_degraded (some healthy) = []

abbrev pub cost_codes : Option ℕ → Option ℕ → List RoutingReasonCode
cost_codes none _ = []
cost_codes (some limit) none = cost_unknown ∷ []
cost_codes (some limit) (some cost) = when_code (ltb limit cost) cost_exceeded

-- The hard constraints, in the order of the source.
unfoldable pub reason_codes_of :
    ProviderDefinition
    → ModelDefinition
    → RoutingRequest
    → Snapshots
    → (allow_degraded : Bool) → List RoutingReasonCode
reason_codes_of d m request snapshots allow_degraded =
    when_code (not d.enabled) provider_disabled
    ++ (access_codes request d.provider_id
        ++ (when_code
              (not (
                subset request.required_capabilities
                  (effective_capabilities d.capabilities m.capabilities)))
              capability_mismatch
            ++ (locality_codes request.privacy_requirement (lookup d.provider_id snapshots.locality)
                ++ (health_codes allow_degraded (lookup d.provider_id snapshots.health)
                    ++ cost_codes request.max_estimated_cost
                        (lookup (d.provider_id, m.model_id) snapshots.cost)))))

-- `_check_eligibility_reason_consistency`
unfoldable pub check_evaluation : CandidateEvaluation → Outcome RoutingError CandidateEvaluation
check_evaluation e =
    raise_if
      ((e.eligible && not (is_empty e.reason_codes)) || (not e.eligible && is_empty e.reason_codes))
      invalid_evaluation
    >> ok e

unfoldable pub evaluation_of :
    ProviderDefinition → ModelDefinition → RoutingRequest → Snapshots → Bool → CandidateEvaluation
unfolding reason_codes_of
evaluation_of d m request snapshots allow_degraded = record {
  provider_id = d.provider_id;
  model_id = m.model_id;
  eligible = is_empty (reason_codes_of d m request snapshots allow_degraded);
  reason_codes = reason_codes_of d m request snapshots allow_degraded;
  effective = effective_capabilities d.capabilities m.capabilities;
  trusted_cost = lookup (d.provider_id, m.model_id) snapshots.cost;
  trusted_health = lookup d.provider_id snapshots.health;
}

-- `_evaluate_candidate`
unfoldable pub evaluate_candidate :
    ProviderDefinition
    → ModelDefinition
    → RoutingRequest
    → Snapshots
    → Bool
    → Outcome RoutingError CandidateEvaluation
unfolding check_evaluation
evaluate_candidate d m request snapshots allow_degraded =
    check_evaluation (evaluation_of d m request snapshots allow_degraded)

-- `min` of the known costs.
abbrev pub known_costs : List CandidateEvaluation → List ℕ
known_costs [] = []
known_costs (e ∷ rest) = elim e.trusted_cost [
  | none ↦ known_costs rest
  | some cost ↦ cost ∷ known_costs rest
]

abbrev pub least : ℕ → List ℕ → ℕ
least n [] = n
least n (m ∷ ms) = least (if ltb m n then m else n) ms

abbrev pub costs_exactly : ℕ → CandidateEvaluation → Bool
costs_exactly minimum e = elim e.trusted_cost [ none ↦ false | some cost ↦ nat_beq cost minimum ]

-- `_apply_optimization`
unfoldable pub apply_optimization :
    List CandidateEvaluation → OptimizationPolicy → List CandidateEvaluation
apply_optimization eligible deterministic = eligible
apply_optimization eligible lowest_cost = elim (known_costs eligible) [
  | [] ↦ []
  | n ∷ ns ↦ keep (costs_exactly (least n ns)) eligible
]

-- The order of `(provider_id, model_id)`.
abbrev pub by_key : CandidateEvaluation → CandidateEvaluation → Bool
by_key a b =
    if a.provider_id == b.provider_id
    then codes_le (codes a.model_id) (codes b.model_id)
    else codes_le (codes a.provider_id) (codes b.provider_id)

abbrev pub same_key : String → String → CandidateEvaluation → Bool
same_key provider_id model_id e = e.provider_id == provider_id && e.model_id == model_id

-- The evaluations name each pair once.
abbrev pub unique_evaluations : List CandidateEvaluation → List ModelKey → Bool
unique_evaluations [] seen = true
unique_evaluations (e ∷ rest) seen =
    not (contains (e.provider_id, e.model_id) seen)
    && unique_evaluations rest ((e.provider_id, e.model_id) ∷ seen)

abbrev pub first_eligible : List CandidateEvaluation → Bool
first_eligible [] = false
first_eligible (e ∷ _) = e.eligible

abbrev pub status_matches : SelectionStatus → Option SelectionRecord → Bool
status_matches selected (some _) = true
status_matches no_eligible_provider none = true
status_matches _ _ = false

abbrev pub choice_matches : Option SelectionRecord → List CandidateEvaluation → Bool
choice_matches none evaluations = true
choice_matches (some s) evaluations =
    first_eligible (keep (same_key s.provider_id s.model_id) evaluations)

-- `_check_result_consistency`
unfoldable pub check_result : SelectionResult → Outcome RoutingError SelectionResult
check_result r = do
  raise_if (not (status_matches r.status r.chosen)) invalid_result
  raise_if (not (unique_evaluations r.evaluations [])) invalid_result
  raise_if (not (choice_matches r.chosen r.evaluations)) invalid_result
  ok r
