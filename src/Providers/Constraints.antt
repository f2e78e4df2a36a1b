-- ===== src/Providers/Constraints.antt =====
-- A candidate without reason codes meets the request.
use mr_enderson.Base.{
  ℕ, ◌≤◌, ◌≡◌, refl, ◌⊎◌, String, Bool, true, false, not, Option, none, some, List, [], arith,
  string_eq, contains, subset, inter-subset_left, inter-subset_right, subset_trans, append-nil,
  lookup,
}
use mr_enderson.Providers.Catalogue.{
  provider_capability_eq, ProviderDefinition, ModelDefinition, model_key_eq, effective_capabilities,
}
use mr_enderson.Providers.Routing.{
  PrivacyRequirement, local_only, ProviderLocality, local, HealthState, healthy, degraded,
  RoutingReasonCode, RoutingRequest, Snapshots, access_codes, locality_codes, health_codes,
  cost_codes, not_allowed, when_code, reason_codes_of,
}

-- What the request asks of a provider and a model.
pub record MeetsConstraints (request : RoutingRequest) (snapshots : Snapshots)
    (allow_degraded : Bool) (d : ProviderDefinition) (m : ModelDefinition) : Type 0 where
  pub enabled : d.enabled ≡ true
  pub not_denied : contains d.provider_id request.denied_provider_ids ≡ false
  pub allowed :
      (ids : List String)
      → request.allowed_provider_ids ≡ some ids
      → contains d.provider_id ids ≡ true
  pub provider_capable : subset request.required_capabilities d.capabilities ≡ true
  pub model_capable : subset request.required_capabilities m.capabilities ≡ true
  pub is_local :
      request.privacy_requirement ≡ local_only
      → lookup d.provider_id snapshots.locality ≡ some local
  pub healthy_enough :
      (lookup d.provider_id snapshots.health ≡ some healthy)
      ⊎ ((lookup d.provider_id snapshots.health ≡ some degraded) × (allow_degraded ≡ true))
  pub affordable :
      (limit : ℕ)
      → request.max_estimated_cost ≡ some limit
      → (cost : ℕ) × (lookup (d.provider_id, m.model_id) snapshots.cost ≡ some cost)
        × (cost ≤ limit)

local_lem :
    (p : PrivacyRequirement) (l : Option ProviderLocality)
    → locality_codes p l ≡ []
    → p ≡ local_only
    → l ≡ some local
local_lem p l h e = ground arith

healthy_lem :
    (allow : Bool) (h : Option HealthState)
    → health_codes allow h ≡ []
    → (h ≡ some healthy) ⊎ ((h ≡ some degraded) × (allow ≡ true))
healthy_lem allow h e = ground arith

affordable_lem :
    (limit : ℕ) (most cost : Option ℕ)
    → cost_codes most cost ≡ []
    → most ≡ some limit
    → (c : ℕ) × (cost ≡ some c) × (c ≤ limit)
affordable_lem limit none cost h e = cc
affordable_lem limit (some l) none h e = cc
affordable_lem limit (some l) (some c) h e = (c, refl, ground (arith, h, e))

allowed_lem :
    (request : RoutingRequest) (id : String)
    → access_codes request id ≡ []
    → (contains id request.denied_provider_ids ≡ false)
      × (not_allowed request.allowed_provider_ids id ≡ false)
allowed_lem request id h = ground (arith, h)

pub no_codes-MeetsConstraints :
    (d : ProviderDefinition) (m : ModelDefinition) (request : RoutingRequest)
    (snapshots : Snapshots) (allow_degraded : Bool)
    → reason_codes_of d m request snapshots allow_degraded ≡ []
    → MeetsConstraints request snapshots allow_degraded d m
unfolding reason_codes_of
no_codes-MeetsConstraints d m request snapshots allow_degraded h =
    let h1 = append-nil (when_code (not d.enabled) RoutingReasonCode.provider_disabled) _ h in
    let h2 = append-nil (access_codes request d.provider_id) _ h1.1 in
    let h3 =
      append-nil
        (when_code
          (not (
            subset request.required_capabilities
              (effective_capabilities d.capabilities m.capabilities)))
          RoutingReasonCode.capability_mismatch)
        _ h2.1 in
    let h4 =
      append-nil
        (locality_codes request.privacy_requirement (lookup d.provider_id snapshots.locality)) _
        h3.1 in
    let h5 =
      append-nil (health_codes allow_degraded (lookup d.provider_id snapshots.health)) _ h4.1 in
    let capable : subset request.required_capabilities
          (effective_capabilities d.capabilities m.capabilities)
        ≡ true =
      test_false RoutingReasonCode.capability_mismatch _ (h3.0) in
    let (free, listed) = allowed_lem request d.provider_id h2.0 in
    record {
      enabled = test_false RoutingReasonCode.provider_disabled d.enabled (h1.0);
      not_denied = free;
      allowed = λ ids e. ground (arith, rw e at listed);
      provider_capable =
          subset_trans request.required_capabilities
            (effective_capabilities d.capabilities m.capabilities) d.capabilities capable
            (inter-subset_left d.capabilities m.capabilities);
      model_capable =
          subset_trans request.required_capabilities
            (effective_capabilities d.capabilities m.capabilities) m.capabilities capable
            (inter-subset_right d.capabilities m.capabilities);
      is_local =
          local_lem request.privacy_requirement (lookup d.provider_id snapshots.locality) h4.0;
      healthy_enough = healthy_lem allow_degraded (lookup d.provider_id snapshots.health) h5.0;
      affordable = λ limit.
          affordable_lem limit request.max_estimated_cost
            (lookup (d.provider_id, m.model_id) snapshots.cost) h5.1;
    }
  where
    test_false : (c : RoutingReasonCode) (b : Bool) → when_code (not b) c ≡ [] → b ≡ true
    test_false c b h = ground (arith, h)
