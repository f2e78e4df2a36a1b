-- ===== src/Providers/Evaluated.antt =====
-- In a sound registry the evaluation returns, and names each provider and model once.
use mr_enderson.Base.{
  IsDistinct, append-IsDistinct, ◌≡◌, refl, sym, ap, ◌∙◌, inl, inr, String, Bool, some, List, [],
  ◌∷◌, ◌++◌, map, string_eq, ==-refl, ==-cases, In, here, there, In-uncons, In-append, map-In, Dict,
  values, lookup, IsKeyed, ok,
}
use mr_enderson.Providers.Catalogue.{
  ProviderDefinition, ModelDefinition, Entry, Registry, list_models,
}
use mr_enderson.Providers.Routing.{RoutingRequest, CandidateEvaluation, Snapshots, evaluation_of}
use mr_enderson.Providers.Route.{evaluate_models, evaluate_providers}
use mr_enderson.Providers.Winner.{evaluate_candidate_ok}
use mr_enderson.Providers.Distinct.{key_of}

abbrev pub model_name : ModelDefinition → String
model_name m = m.model_id

abbrev pub provider_name : ProviderDefinition → String
provider_name d = d.provider_id

module _ {Provider : Type 0} where
  -- Every entry stands under the id of its definition, and its models have different ids.
  unfoldable pub AllSound : Dict String (Entry Provider) → Type 0
  AllSound [] = Unit
  AllSound ((id, e) ∷ rest) =
      (id ≡ e.definition.provider_id) × IsDistinct model_name e.models × AllSound rest

  pub record IsSound (registry : Registry Provider) : Type 0 where
    pub keyed : IsKeyed registry.entries
    pub sound : AllSound registry.entries

  abbrev pub definitions : Dict String (Entry Provider) → List ProviderDefinition
  definitions entries = map (λ e. e.definition) (values entries)

  pub definition-found :
      (entries : Dict String (Entry Provider)) (d : ProviderDefinition)
      → IsKeyed entries
      → AllSound entries
      → In d (definitions entries)
      → (e : Entry Provider) × (lookup d.provider_id entries ≡ some e)
        × IsDistinct model_name e.models
  unfolding AllSound
  definition-found [] d k s m = elim m [ ]
  definition-found ((id, e) ∷ rest) d k s m = elim (In-uncons d e.definition (definitions rest) m) [
    | inl same ↦ (e, rw (same, s.0, ==-refl e.definition.provider_id) refl, s.1)
    | inr i ↦
        let (x, found, distinct) = definition-found rest d k.1 s.2 i in
        elim (==-cases d.provider_id id) [
          | inl same ↦ absurd (cc (k.0, ap (λ n. lookup n rest) same, found))
          | inr other ↦ (x, rw other found, distinct)
        ]
  ]

  pub definitions-IsDistinct :
      (entries : Dict String (Entry Provider))
      → IsKeyed entries
      → AllSound entries
      → IsDistinct provider_name (definitions entries)
  unfolding AllSound IsDistinct
  definitions-IsDistinct [] k s = tt
  definitions-IsDistinct ((id, e) ∷ rest) k s = (
    λ d m same.
        let (x, found, _) = definition-found rest d k.1 s.2 m in
        let here_too : d.provider_id ≡ id = same ∙ sym s.0 in
        absurd (cc (k.0, ap (λ n. lookup n rest) here_too, found)),
    definitions-IsDistinct rest k.1 s.2,
  )

  module _ (registry : Registry Provider) (request : RoutingRequest) (snapshots : Snapshots)
      (allow_degraded : Bool) where
    abbrev pub evaluations_of : ProviderDefinition → List ModelDefinition → List CandidateEvaluation
    evaluations_of d ms = map (λ m. evaluation_of d m request snapshots allow_degraded) ms

    evaluate_models_ok :
        (d : ProviderDefinition) (ms : List ModelDefinition)
        → evaluate_models request snapshots allow_degraded d ms ≡ ok (evaluations_of d ms)
    unfolding evaluate_models
    evaluate_models_ok d [] = refl
    evaluate_models_ok d (m ∷ ms) =
        rw (evaluate_candidate_ok d m request snapshots allow_degraded, evaluate_models_ok d ms)
          refl

    evaluations-IsDistinct :
        (d : ProviderDefinition) (ms : List ModelDefinition)
        → IsDistinct model_name ms
        → IsDistinct key_of (evaluations_of d ms)
    unfolding IsDistinct evaluation_of
    evaluations-IsDistinct d [] h = tt
    evaluations-IsDistinct d (m ∷ ms) h = (
      λ e i same.
          let (n, j, is) =
            map-In (λ m. evaluation_of d m request snapshots allow_degraded) e ms i in
          h.0 n j (ap (λ x. x.model_id) (sym is) ∙ ap (λ k. k.1) same),
      evaluations-IsDistinct d ms h.1,
    )

    -- What the loops over the providers return.
    pub record IsEvaluated (ds : List ProviderDefinition) : Type 0 where
      pub es : List CandidateEvaluation
      pub returned : evaluate_providers request snapshots allow_degraded registry ds ≡ ok es
      pub distinct : IsDistinct key_of es
      pub named :
          (e : CandidateEvaluation)
          → In e es
          → (d : ProviderDefinition) × In d ds × (e.provider_id ≡ d.provider_id)

    pub evaluated :
        (ds : List ProviderDefinition)
        → ((d : ProviderDefinition)
            → In d ds
            → (ms : List ModelDefinition) × (list_models registry d.provider_id ≡ ok ms)
              × IsDistinct model_name ms)
        → IsDistinct provider_name ds
        → IsEvaluated ds
    unfolding evaluate_providers IsDistinct evaluation_of
    evaluated [] known h = record {
      es = [];
      returned = refl;
      distinct = tt;
      named = λ e m. elim m [ ];
    }
    evaluated (d ∷ ds) known h =
        let (ms, listing, apart) = known d (here refl) in
        let rest = evaluated ds (λ x i. known x (there i)) h.1 in
        record {
          es = evaluations_of d ms ++ rest.es;
          returned = rw (listing, evaluate_models_ok d ms, rest.returned) refl;
          distinct =
              append-IsDistinct key_of (evaluations_of d ms) rest.es
                (evaluations-IsDistinct d ms apart) rest.distinct
                (λ x y i j same.
                  let (m, _, is) =
                    map-In (λ m. evaluation_of d m request snapshots allow_degraded) x ms i in
                  let (d', k, name) = rest.named y j in
                  h.0 d' k (sym name ∙ (ap (λ q. q.0) same ∙ ap (λ e. e.provider_id) is)));
          named = λ e i. elim (In-append e (evaluations_of d ms) rest.es i) [
            | inl j ↦
                let (m, _, is) =
                  map-In (λ m. evaluation_of d m request snapshots allow_degraded) e ms j in
                (d, here refl, ap (λ x. x.provider_id) is)
            | inr j ↦ let (d', k, name) = rest.named e j in (d', there k, name)
          ];
        }
