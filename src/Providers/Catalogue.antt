-- ===== src/Providers/Catalogue.antt =====
-- `ProviderRegistry` of app/providers/registry.py, with the definitions of contracts.py and the
-- catalogue queries of catalog.py. The tests of types hold by typing; the one read of the live
-- `definition` of a provider is an argument. Identifiers are validated where definitions are built.
use mr_enderson.Base.{
  ℕ, ◌≡◌, ◌↔◌, refl, inl, inr, String, Bool, true, ◌&&◌, not, Option, none, some, List, [], ◌∷◌,
  map, Eq, eq_of_discrete, ◌==◌, string_eq, ==-refl, ==→≡, contains, inter, Dict, lookup, insert,
  values, is_some, sorted, codes_le, Outcome, ok, raise, raise_if, ◌>>◌, Bool-cases, if◌then◌else◌,
}
use mr_enderson.Schemas.{Json}
use mr_enderson.Authority.Identifiers.{codes}

pub data ProviderCapability : Type 0 where
  text_generation structured_output reasoning coding vision embedding reranking : ProviderCapability
  streaming tool_use : ProviderCapability

abbrev pub ProviderCapability-discrete : Discrete ProviderCapability
ProviderCapability-discrete = hlevel

instance abbrev pub provider_capability_eq : Eq ProviderCapability
provider_capability_eq = eq_of_discrete ProviderCapability-discrete

pub record ProviderDefinition : Type 0 where
  pub provider_id : String
  pub display_name : String
  pub provider_type : String
  pub enabled : Bool
  pub capabilities : List ProviderCapability
  pub privacy_classification : String
  pub metadata : Json

pub record ModelDefinition : Type 0 where
  pub model_id : String
  pub provider_id : String
  pub display_name : String
  pub capabilities : List ProviderCapability
  pub context_window : Option ℕ
  pub supports_structured_output : Bool
  pub supports_streaming : Bool
  pub metadata : Json

-- The subclasses of `ProviderRegistrationError`, and `ModelOwnershipError`.
pub data ProviderError : Type 0 where
  duplicate_provider unknown_provider disabled_provider : String → ProviderError
  duplicate_model unknown_model : (provider_id model_id : String) → ProviderError
  model_ownership : (model_id owner provider_id : String) → ProviderError

-- A pair of ids as a key.
abbrev pub ModelKey : Type 0
ModelKey = String × String

abbrev pub key_beq : ModelKey → ModelKey → Bool
key_beq k l = k.0 == l.0 && k.1 == l.1

pub key_beq_iff : (k l : ModelKey) → (key_beq k l ≡ true) ↔ (k ≡ l)
key_beq_iff k l = (
  λ h. elim (Bool-cases (k.0 == l.0)) [
    | inl e ↦
        let first : k.0 ≡ l.0 = ==→≡ k.0 l.0 e in
        let second : k.1 ≡ l.1 = ==→≡ k.1 l.1 (rw e at h) in rw (first, second) refl
    | inr e ↦ absurd (cc (rw e at h))
  ],
  λ e. rw (e, ==-refl l.0, ==-refl l.1) refl,
)

instance abbrev pub model_key_eq : Eq ModelKey
model_key_eq = record { same = key_beq; decides = key_beq_iff }

module _ (Provider : Type 0) where
  -- `_RegisteredProvider`
  pub record Entry : Type 0 where
    pub provider : Provider
    pub definition : ProviderDefinition
    pub models : List ModelDefinition

  pub record Registry : Type 0 where
    pub entries : Dict String Entry
    pub models : Dict ModelKey ModelDefinition

-- The checks of a batch of models, in their order.
unfoldable pub validate_models :
    String → List ModelDefinition → (seen : List String) → Outcome ProviderError (Unit {0})
validate_models provider_id [] seen = ok tt
validate_models provider_id (m ∷ rest) seen = do
  raise_if (not (m.provider_id == provider_id))
      (model_ownership m.model_id m.provider_id provider_id)
  raise_if (contains m.model_id seen) (duplicate_model provider_id m.model_id)
  validate_models provider_id rest (m.model_id ∷ seen)

abbrev pub add_models :
    String → List ModelDefinition → Dict ModelKey ModelDefinition → Dict ModelKey ModelDefinition
add_models provider_id [] known = known
add_models provider_id (m ∷ rest) known =
    add_models provider_id rest (insert (provider_id, m.model_id) m known)

abbrev pub by_provider_id : ProviderDefinition → ProviderDefinition → Bool
by_provider_id d e = codes_le (codes d.provider_id) (codes e.provider_id)

abbrev pub by_model_id : ModelDefinition → ModelDefinition → Bool
by_model_id m n = codes_le (codes m.model_id) (codes n.model_id)

module _ {Provider : Type 0} where
  unfoldable pub has_provider : Registry Provider → String → Bool
  has_provider registry provider_id = is_some (lookup provider_id registry.entries)

  -- `ProviderRegistry.register`
  unfoldable pub register_provider :
      Registry Provider
      → Provider
      → ProviderDefinition
      → List ModelDefinition
      → Outcome ProviderError (Registry Provider)
  unfolding has_provider validate_models
  register_provider registry provider definition models = do
    raise_if (has_provider registry definition.provider_id)
        (duplicate_provider definition.provider_id)
    validate_models definition.provider_id models []
    ok (record {
      entries =
          insert definition.provider_id
            (record { provider = provider; definition = definition; models = models })
            registry.entries;
      models = add_models definition.provider_id models registry.models;
    })

  unfoldable pub get_provider : Registry Provider → String → Outcome ProviderError Provider
  get_provider registry provider_id = elim (lookup provider_id registry.entries) [
    | none ↦ raise (unknown_provider provider_id)
    | some entry ↦ ok entry.provider
  ]

  unfoldable pub get_enabled : Registry Provider → String → Outcome ProviderError Provider
  get_enabled registry provider_id = elim (lookup provider_id registry.entries) [
    | none ↦ raise (unknown_provider provider_id)
    | some entry ↦
        if not entry.definition.enabled
        then raise (disabled_provider provider_id)
        else ok entry.provider
  ]

  unfoldable pub list_provider_definitions : Registry Provider → List ProviderDefinition
  list_provider_definitions registry =
      sorted by_provider_id (map (λ e. e.definition) (values registry.entries))

  unfoldable pub get_model :
      Registry Provider → (provider_id model_id : String) → Outcome ProviderError ModelDefinition
  unfolding has_provider
  get_model registry provider_id model_id =
      if not (has_provider registry provider_id)
      then raise (unknown_provider provider_id)
      else (elim (lookup (provider_id, model_id) registry.models) [
        | none ↦ raise (unknown_model provider_id model_id)
        | some model ↦ ok model
      ])

  unfoldable pub list_models :
      Registry Provider → String → Outcome ProviderError (List ModelDefinition)
  list_models registry provider_id = elim (lookup provider_id registry.entries) [
    | none ↦ raise (unknown_provider provider_id)
    | some entry ↦ ok (sorted by_model_id entry.models)
  ]

-- `provider ∩ model`
abbrev pub effective_capabilities :
    List ProviderCapability → List ProviderCapability → List ProviderCapability
effective_capabilities provider_capabilities model_capabilities =
    inter provider_capabilities model_capabilities
