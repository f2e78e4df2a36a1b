-- ===== src/Authority/Algebra.antt =====
-- The pure authority algebra (app/authority_contracts/algebra.py). Operands are exactly
-- AuthorityScope or NO_AUTHORITY here by typing, so `_carrier` never raises.
use mr_enderson.Base.{
  Bool, true, false, ◌&&◌, not, ◌==◌, string_eq, nat_eq, Outcome, ok, ◌>>=◌, is_empty, leb, subset,
  inter, if◌then◌else◌,
}
use mr_enderson.Authority.Tiers.{PTier, tier_leq}
use mr_enderson.Authority.Identifiers.{Unicode, ValueError}
use mr_enderson.Authority.Contracts.{
  Datetime, ObjectiveRef, AuthorityScope, construct, construct_objective,
}

-- `Authority`: a scope, or the bottom NO_AUTHORITY.
pub data Authority : Type 0 where
  no_authority : Authority
  scope : AuthorityScope → Authority

-- `_versions_match`
unfoldable pub versions_match : AuthorityScope → AuthorityScope → Bool
versions_match a b =
    a.schema_version == b.schema_version && a.vocabulary_version == b.vocabulary_version

-- Equality of two ObjectiveRef models: field by field.
abbrev pub objective_beq : ObjectiveRef → ObjectiveRef → Bool
objective_beq a b = a.objective_id == b.objective_id && a.objective_version == b.objective_version

-- `a <= b` and `min(a, b)` on UTC datetimes.
abbrev pub datetime_leq : Datetime → Datetime → Bool
datetime_leq a b = leb a.instant b.instant

abbrev pub datetime_min : Datetime → Datetime → Datetime
datetime_min a b = if datetime_leq a b then a else b

abbrev pub min_ceiling : PTier → PTier → PTier
min_ceiling a b = if tier_leq a b then a else b

-- The comparison of two revalidated scopes.
unfoldable pub scope_leq : AuthorityScope → AuthorityScope → Bool
scope_leq a b =
    objective_beq a.objective_ref b.objective_ref
    && (tier_leq a.permission_ceiling b.permission_ceiling
        && (subset a.action_types b.action_types && datetime_leq a.expires_at b.expires_at))

module _ (u : Unicode) where
  -- `_revalidated`
  unfoldable pub revalidated : AuthorityScope → Outcome ValueError AuthorityScope
  revalidated s = do
    objective ← construct_objective u s.objective_ref
    construct u (record s { objective_ref = objective })

  unfoldable pub leq : Authority → Authority → Outcome ValueError Bool
  unfolding scope_leq
  leq no_authority b = ok true
  leq (scope a) no_authority = ok false
  leq (scope a) (scope b) =
      if not (versions_match a b)
      then ok false
      else do a' ← revalidated a; b' ← revalidated b; ok (scope_leq a' b')

  -- What two revalidated scopes for one objective have in common.
  unfoldable pub common : AuthorityScope → AuthorityScope → Outcome ValueError Authority
  common a b = if is_empty (inter a.action_types b.action_types) then ok no_authority else do
    m ← construct u (record a {
      permission_ceiling = min_ceiling a.permission_ceiling b.permission_ceiling;
      action_types = inter a.action_types b.action_types;
      expires_at = datetime_min a.expires_at b.expires_at;
    })
    ok (scope m)

  unfoldable pub meet : Authority → Authority → Outcome ValueError Authority
  unfolding common
  meet no_authority b = ok no_authority
  meet (scope a) no_authority = ok no_authority
  meet (scope a) (scope b) = if not (versions_match a b) then ok no_authority else do
    a' ← revalidated a
    b' ← revalidated b
    if objective_beq a'.objective_ref b'.objective_ref then common a' b' else ok no_authority
