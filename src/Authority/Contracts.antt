-- ===== src/Authority/Contracts.antt =====
-- The sealed models of app/authority_contracts/contracts.py, with the checks of their validated
-- constructors. A record here may hold any field values, as a tampered instance can; `construct`
-- is the constructor, and pydantic's ValidationError is a `value_error`.
use mr_enderson.Base.{
  ℕ, ◌-◌, ◌^◌, String, Bool, false, ◌&&◌, not, none, some, List, Eq, ◌==◌, string_eq, nat_eq,
  eq_of_discrete, Outcome, ok, is_ok, raise_if, ◌>>◌, is_empty, all, contains, leb,
}
use mr_enderson.Authority.Tiers.{
  PrincipalKind, PTier, p_tier_eq, issuable_ceilings, action_type_vocabulary, tier_floor, tier_leq,
}
use mr_enderson.Authority.Identifiers.{Unicode, ValueError, value_error, validate_id}

abbrev pub authority_scope_schema_version : ℕ
authority_scope_schema_version = 1

abbrev pub action_vocabulary_version : ℕ
action_vocabulary_version = 1

-- `_MAX_VERSION`
abbrev pub max_version : ℕ
max_version = 2 ^ 63 - 1

-- The `tzinfo` of a datetime: the UTC singleton, another zone, or none.
pub data Zone : Type 0 where
  utc other naive : Zone

abbrev pub Zone-discrete : Discrete Zone
Zone-discrete = hlevel

instance abbrev pub zone_eq : Eq Zone
zone_eq = eq_of_discrete Zone-discrete

-- A datetime: microseconds, and the zone.
pub record Datetime : Type 0 where
  pub instant : ℕ
  pub tzinfo : Zone

pub record PrincipalRef : Type 0 where
  pub kind : PrincipalKind
  pub id : String

pub record ObjectiveRef : Type 0 where
  pub objective_id : String
  pub objective_version : ℕ

pub record AuthorityScope : Type 0 where
  pub schema_version : ℕ
  pub vocabulary_version : ℕ
  pub permission_ceiling : PTier
  pub action_types : List String
  pub objective_ref : ObjectiveRef
  pub expires_at : Datetime

-- `_validate_version`
unfoldable pub validate_version : ℕ → Bool
validate_version value = leb 1 value && leb value max_version

-- `_check_schema_version`
unfoldable pub check_schema_version : ℕ → Bool
check_schema_version value = value == authority_scope_schema_version

-- `_check_vocabulary_version`
unfoldable pub check_vocabulary_version : ℕ → Bool
check_vocabulary_version value = value == action_vocabulary_version

-- `_check_ceiling`
unfoldable pub check_ceiling : PTier → Bool
check_ceiling value = contains value issuable_ceilings

-- `_check_action_types`
unfoldable pub check_action_types : List String → Bool
check_action_types value =
    not (is_empty value) && all (λ t. contains t action_type_vocabulary) value

-- `_check_expires_at`
unfoldable pub check_expires_at : Datetime → Bool
check_expires_at value = value.tzinfo == Zone.utc

-- The floor of one action type is at or below the ceiling.
abbrev pub floor_fits : PTier → String → Bool
floor_fits ceiling t = elim (tier_floor t) [ none ↦ false | some floor ↦ tier_leq floor ceiling ]

-- `_check_tier_consistency`
unfoldable pub check_tier_consistency : PTier → List String → Bool
check_tier_consistency ceiling value = all (floor_fits ceiling) value

module _ (u : Unicode) where
  -- `PrincipalRef(...)`
  pub construct_principal : PrincipalRef → Outcome ValueError PrincipalRef
  construct_principal f = do validate_id u f.id; ok f

  unfoldable pub valid_objective : ObjectiveRef → Bool
  valid_objective f = is_ok (validate_id u f.objective_id) && validate_version f.objective_version

  -- `ObjectiveRef(...)`
  unfoldable pub construct_objective : ObjectiveRef → Outcome ValueError ObjectiveRef
  unfolding valid_objective
  construct_objective f = do raise_if (not (valid_objective f)) value_error; ok f

  -- Every field validator passes. A nested instance is validated again (`revalidate_instances`).
  unfoldable pub valid_scope : AuthorityScope → Bool
  valid_scope f =
      check_schema_version f.schema_version
      && (check_vocabulary_version f.vocabulary_version
          && (check_ceiling f.permission_ceiling
              && (check_action_types f.action_types
                  && (valid_objective f.objective_ref
                      && (check_expires_at f.expires_at
                          && check_tier_consistency f.permission_ceiling f.action_types)))))

  -- `AuthorityScope(...)`
  unfoldable pub construct : AuthorityScope → Outcome ValueError AuthorityScope
  construct f = do raise_if (not (valid_scope f)) value_error; ok f
