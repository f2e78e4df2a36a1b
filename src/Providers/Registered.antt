-- ===== src/Providers/Registered.antt =====
-- What an accepted registration leaves.
use mr_enderson.Base.{
  ◌≡◌, refl, ◌∙◌, inl, inr, String, Bool, true, false, not, some, List, [], ◌∷◌, ◌==◌, string_eq,
  ==-refl, ==-cases, contains, In, here, there, Dict, lookup, insert, lookup-insert_self,
  lookup-insert_ne, ok, raise, raise_if, ◌>>◌, bind_ok,
}
use mr_enderson.Providers.Catalogue.{
  ProviderDefinition, ModelDefinition, duplicate_provider, duplicate_model, model_ownership,
  ModelKey, model_key_eq, Entry, Registry, validate_models, add_models, has_provider,
  register_provider, get_provider, get_enabled, get_model, list_models,
}

check_passed {ℓ} : {E : Type ℓ} (b : Bool) (e : E) → raise_if b e ≡ ok tt → b ≡ false
check_passed true e h = cc
check_passed false e h = refl

pub validate_inv :
    (id : String) (m : ModelDefinition) (rest : List ModelDefinition) (seen : List String)
    → validate_models id (m ∷ rest) seen ≡ ok tt
    → (contains m.model_id seen ≡ false) × (validate_models id rest (m.model_id ∷ seen) ≡ ok tt)
unfolding validate_models
validate_inv id m rest seen h =
    let (_, _, more) =
      bind_ok (raise_if (not (m.provider_id == id)) (model_ownership m.model_id m.provider_id id))
        (λ _.
          raise_if (contains m.model_id seen) (duplicate_model id m.model_id)
          >> validate_models id rest (m.model_id ∷ seen))
        tt h in
    let (u, fresh, last) =
      bind_ok (raise_if (contains m.model_id seen) (duplicate_model id m.model_id))
        (λ _. validate_models id rest (m.model_id ∷ seen)) tt more in
    (check_passed (contains m.model_id seen) (duplicate_model id m.model_id) fresh, last)

untouched :
    (id : String) (ms : List ModelDefinition) (seen : List String) (x : String)
    (known : Dict ModelKey ModelDefinition)
    → validate_models id ms seen ≡ ok tt
    → contains x seen ≡ true
    → lookup (id, x) (add_models id ms known) ≡ lookup (id, x) known
untouched id [] seen x known h k = refl
untouched id (m ∷ ms) seen x known h k =
    let (fresh, rest) = validate_inv id m ms seen h in
    elim (==-cases x m.model_id) [
      | inl same ↦ absurd (cc (fresh, rw same at k))
      | inr other ↦
          untouched id ms (m.model_id ∷ seen) x (insert (id, m.model_id) m known) rest
            (rw (other, k) refl)
          ∙ lookup-insert_ne (id, x) (id, m.model_id) m known (rw (==-refl id) other)
    ]

added :
    (id : String) (ms : List ModelDefinition) (seen : List String) (m : ModelDefinition)
    (known : Dict ModelKey ModelDefinition)
    → validate_models id ms seen ≡ ok tt
    → In m ms
    → lookup (id, m.model_id) (add_models id ms known) ≡ some m
added id [] seen m known h i = elim i [ ]
added id (n ∷ ms) seen m known h (here same) = rw same (
    untouched id ms (n.model_id ∷ seen) n.model_id (insert (id, n.model_id) n known)
      (validate_inv id n ms seen h).1 (rw (==-refl n.model_id) refl)
    ∙ lookup-insert_self (id, n.model_id) n known)
added id (n ∷ ms) seen m known h (there i) =
    added id ms (n.model_id ∷ seen) m (insert (id, n.model_id) n known)
      (validate_inv id n ms seen h).1 i

elsewhere :
    (id other x : String) (ms : List ModelDefinition) (known : Dict ModelKey ModelDefinition)
    → (other == id) ≡ false
    → lookup (other, x) (add_models id ms known) ≡ lookup (other, x) known
elsewhere id other x [] known h = refl
elsewhere id other x (m ∷ ms) known h =
    elsewhere id other x ms (insert (id, m.model_id) m known) h
    ∙ lookup-insert_ne (other, x) (id, m.model_id) m known (rw h refl)

module _ {Provider : Type 0} where
  pub register_inv :
      (registry registry' : Registry Provider) (provider : Provider) (d : ProviderDefinition)
      (ms : List ModelDefinition)
      → register_provider registry provider d ms ≡ ok registry'
      → (has_provider registry d.provider_id ≡ false)
        × (validate_models d.provider_id ms [] ≡ ok tt)
        × (registry' ≡ record {
          entries =
              insert d.provider_id
                (record { provider = provider; definition = d; models = ms })
                registry.entries;
          models = add_models d.provider_id ms registry.models;
        })
  unfolding register_provider
  register_inv registry registry' provider d ms h =
      let (_, free, more) =
        bind_ok (raise_if (has_provider registry d.provider_id) (duplicate_provider d.provider_id))
          (λ _.
            validate_models d.provider_id ms []
            >> ok (record {
              entries =
                  insert d.provider_id (record { provider = provider; definition = d; models = ms })
                    registry.entries;
              models = add_models d.provider_id ms registry.models;
            }))
          registry' h in
      let (_, valid, last) =
        bind_ok (validate_models d.provider_id ms [])
          (λ _. ok (record {
            entries =
                insert d.provider_id (record { provider = provider; definition = d; models = ms })
                  registry.entries;
            models = add_models d.provider_id ms registry.models;
          }))
          registry' more in
      (
        check_passed (has_provider registry d.provider_id) (duplicate_provider d.provider_id) free,
        valid,
        cc (last),
      )

  -- What an accepted registration has done to a registry.
  pub record IsRegistered (before after : Registry Provider) (provider : Provider)
      (d : ProviderDefinition) (ms : List ModelDefinition) : Type 0 where
    pub was_free : has_provider before d.provider_id ≡ false
    pub found : get_provider after d.provider_id ≡ ok provider
    pub models_found :
        (m : ModelDefinition) → In m ms → get_model after d.provider_id m.model_id ≡ ok m
    pub others :
        (id : String)
        → (id == d.provider_id) ≡ false
        → (get_provider after id ≡ get_provider before id)
          × (get_enabled after id ≡ get_enabled before id)
          × (list_models after id ≡ list_models before id)
    pub other_models :
        (id model_id : String)
        → (id == d.provider_id) ≡ false
        → get_model after id model_id ≡ get_model before id model_id
    pub for_good :
        (provider' : Provider) (d' : ProviderDefinition) (ms' : List ModelDefinition)
        → d'.provider_id ≡ d.provider_id
        → register_provider after provider' d' ms' ≡ raise (duplicate_provider d.provider_id)

  -- An accepted registration found the id free; afterwards the provider and every model of the batch
  -- are found under their ids, every other provider and its models are as before, and no further
  -- registration under the id is accepted.
  pub register-IsRegistered :
      (registry registry' : Registry Provider) (provider : Provider) (d : ProviderDefinition)
      (ms : List ModelDefinition)
      → register_provider registry provider d ms ≡ ok registry'
      → IsRegistered registry registry' provider d ms
  unfolding register_provider get_provider get_enabled get_model list_models has_provider
  register-IsRegistered registry registry' provider d ms h =
      let (free, valid, shape) = register_inv registry registry' provider d ms h in
      let entry : Entry Provider = record { provider = provider; definition = d; models = ms } in
      let stored : lookup d.provider_id (insert d.provider_id entry registry.entries) ≡ some entry =
        lookup-insert_self d.provider_id entry registry.entries in
      rw shape (record {
        was_free = free;
        found = rw (get_provider, stored) refl;
        models_found = λ m i.
            rw
              (get_model, has_provider, stored, added d.provider_id ms [] m registry.models valid i)
              refl;
        others = λ id ne. (
          rw (get_provider, lookup-insert_ne id d.provider_id entry registry.entries ne) refl,
          rw (get_enabled, lookup-insert_ne id d.provider_id entry registry.entries ne) refl,
          rw (list_models, lookup-insert_ne id d.provider_id entry registry.entries ne) refl,
        );
        other_models = λ id x ne.
            rw
              (
                get_model,
                has_provider,
                lookup-insert_ne id d.provider_id entry registry.entries ne,
                elsewhere d.provider_id id x ms registry.models ne,
              )
              refl;
        for_good = λ provider' d' ms' e. rw (e, register_provider, has_provider, stored) refl;
      })
