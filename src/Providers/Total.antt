-- ===== src/Providers/Total.antt =====
-- In a registry that grew by registrations the router always returns a consistent result.
use mr_enderson.Base.{
  IsDistinct, sorted-IsDistinct, ◌≡◌, refl, sym, ◌∙◌, inl, inr, String, Bool, false, ◌||◌, Option,
  none, some, List, [], ◌∷◌, arith, ◌==◌, string_eq, ==-refl, ==-cases, contains, keep, keep-In, In,
  In-uncons, Dict, insert, insert-IsKeyed, sorted, sorted-In, Outcome, ok, raise,
}
use mr_enderson.Providers.Catalogue.{
  ProviderDefinition, ModelDefinition, Entry, Registry, by_provider_id, by_model_id,
  register_provider, validate_models, list_provider_definitions, list_models,
}
use mr_enderson.Providers.Routing.{
  OptimizationPolicy, RoutingRequest, CandidateEvaluation, SelectionResult, Snapshots, check_result,
}
use mr_enderson.Providers.Route.{is_eligible, result_of, winner_of, route_providers}
use mr_enderson.Providers.Winner.{optimized_lem}
use mr_enderson.Providers.Selected.{winner_inv}
use mr_enderson.Providers.Distinct.{key_of, distinct_unique, winner_first}
use mr_enderson.Providers.Registered.{register_inv, validate_inv}
use mr_enderson.Providers.Evaluated.{
  model_name, provider_name, AllSound, IsSound, definitions, definition-found,
  definitions-IsDistinct, evaluated,
}

validated-IsDistinct :
    (id : String) (ms : List ModelDefinition) (seen : List String)
    → validate_models id ms seen ≡ ok tt
    → IsDistinct model_name ms
      × ((m : ModelDefinition) → In m ms → contains m.model_id seen ≡ false)
unfolding IsDistinct
validated-IsDistinct id [] seen h = (tt, λ m i. elim i [ ])
validated-IsDistinct id (m ∷ ms) seen h =
    let (fresh, more) = validate_inv id m ms seen h in
    let (distinct, new) = validated-IsDistinct id ms (m.model_id ∷ seen) more in
    (
      (
        λ n i same. let gone = new n i in absurd (cc (rw (same, ==-refl m.model_id) at gone)),
        distinct,
      ),
      λ n i. elim (In-uncons n m ms i) [
        | inl same ↦ rw same fresh
        | inr j ↦ later (n.model_id == m.model_id) (contains n.model_id seen) (new n j)
      ],
    )
  where
    later : (a b : Bool) → (a || b) ≡ false → b ≡ false
    later a b h = ground arith

consistent_lem :
    (request : RoutingRequest) (optimization : OptimizationPolicy) (allow_degraded : Bool)
    (es : List CandidateEvaluation) (o : Option CandidateEvaluation)
    → winner_of optimization es ≡ o
    → IsDistinct key_of es
    → check_result (result_of request optimization allow_degraded es o)
      ≡ ok (result_of request optimization allow_degraded es o)
unfolding check_result
consistent_lem request optimization allow_degraded es none q distinct =
    rw (distinct_unique es [] distinct (λ e m. refl)) refl
consistent_lem request optimization allow_degraded es (some w) q distinct =
    let (kept, _) =
      optimized_lem optimization (keep is_eligible es) w (winner_inv optimization es w q) in
    let (inside, good) = keep-In is_eligible w es kept in
    rw (distinct_unique es [] distinct (λ e m. refl), winner_first es w distinct inside good) refl

module _ {Provider : Type 0} where
  insert-AllSound :
      (id : String) (e : Entry Provider) (entries : Dict String (Entry Provider))
      → id ≡ e.definition.provider_id
      → IsDistinct model_name e.models
      → AllSound entries
      → AllSound (insert id e entries)
  unfolding AllSound
  insert-AllSound id e [] same distinct s = (same, distinct, tt)
  insert-AllSound id e ((other, old) ∷ rest) same distinct s = elim (==-cases id other) [
    | inl is ↦ rw (is, ==-refl other) (sym is ∙ same, distinct, s.2)
    | inr is_not ↦ rw is_not (s.0, s.1, insert-AllSound id e rest same distinct s.2)
  ]

  -- The registry after registrations, each of which was accepted or left it as it was.
  unfoldable pub register_each :
      List (Provider × (ProviderDefinition × List ModelDefinition))
      → Registry Provider
      → Registry Provider
  register_each [] registry = registry
  register_each ((provider, (d, ms)) ∷ rest) registry =
      register_each rest (elim (register_provider registry provider d ms) [
        | ok registry' ↦ registry'
        | raise e ↦ registry
      ])

  register-IsSound :
      (registry registry' : Registry Provider) (provider : Provider) (d : ProviderDefinition)
      (ms : List ModelDefinition)
      → IsSound registry
      → register_provider registry provider d ms ≡ ok registry'
      → IsSound registry'
  register-IsSound registry registry' provider d ms s h =
      let (_, valid, shape) = register_inv registry registry' provider d ms h in
      let entry : Entry Provider = record { provider = provider; definition = d; models = ms } in
      rw shape (record {
        keyed = insert-IsKeyed d.provider_id entry registry.entries s.keyed;
        sound =
            insert-AllSound d.provider_id entry registry.entries refl
              (validated-IsDistinct d.provider_id ms [] valid).0 s.sound;
      })

  register_each-IsSound :
      (batches : List (Provider × (ProviderDefinition × List ModelDefinition)))
      (registry : Registry Provider)
      → IsSound registry
      → IsSound (register_each batches registry)
  unfolding register_each
  register_each-IsSound [] registry s = s
  register_each-IsSound ((provider, (d, ms)) ∷ rest) registry s =
      register_each-IsSound rest
        (elim (register_provider registry provider d ms) [
          | ok registry' ↦ registry'
          | raise e ↦ registry
        ])
        (go (register_provider registry provider d ms) refl)
    where
      go :
          (r : Outcome _ (Registry Provider))
          → register_provider registry provider d ms ≡ r
          → IsSound (elim r [ ok registry' ↦ registry' | raise e ↦ registry ])
      go (raise e) q = s
      go (ok registry') q = register-IsSound registry registry' provider d ms s q

  listing :
      (registry : Registry Provider)
      → IsSound registry
      → (d : ProviderDefinition) → In d (definitions registry.entries)
      → (ms : List ModelDefinition) × (list_models registry d.provider_id ≡ ok ms)
        × IsDistinct model_name ms
  unfolding list_models
  listing registry s d m =
      let (e, found, distinct) = definition-found registry.entries d s.keyed s.sound m in
      (
        sorted by_model_id e.models,
        rw (list_models, found) refl,
        sorted-IsDistinct model_name by_model_id e.models distinct,
      )

  abbrev pub empty_registry : Registry Provider
  empty_registry = record { entries = []; models = [] }

  module _ (request : RoutingRequest) (snapshots : Snapshots) (optimization : OptimizationPolicy)
      (allow_degraded : Bool) where
    -- Whatever was registered in an empty registry, and whichever of the registrations were refused,
    -- routing a request returns a result: it raises no error of the registry, and no evaluation and
    -- no result fails the consistency checks of the contracts.
    pub route_returns :
        (batches : List (Provider × (ProviderDefinition × List ModelDefinition)))
        → (result : SelectionResult) × (route_providers
              (register_each batches empty_registry)
              request
              snapshots
              optimization
              allow_degraded
            ≡ ok result)
    unfolding route_providers list_provider_definitions
    route_returns batches =
        let registry = register_each batches empty_registry in
        let s =
          register_each-IsSound batches empty_registry
            (record { keyed = tt; sound = unfold AllSound in tt }) in
        let defs = definitions registry.entries in
        let run =
          evaluated registry request snapshots allow_degraded (sorted by_provider_id defs)
            (λ d m. listing registry s d (sorted-In by_provider_id d defs m))
            (sorted-IsDistinct provider_name by_provider_id defs
              (definitions-IsDistinct registry.entries s.keyed s.sound)) in
        (
          result_of request optimization allow_degraded run.es (winner_of optimization run.es),
          rw run.returned (
              consistent_lem request optimization allow_degraded run.es
                (winner_of optimization run.es) refl run.distinct),
        )
