-- ===== src/Authority/Validity.antt =====
-- Valid scopes: what the validated constructor accepts, what revalidation does, and that the
-- bounds which `meet` computes are valid again.
use mr_enderson.Base.{
  ◌≡◌, inl, inr, String, true, false, List, arith, ok, raise, is_empty, contains, string_eq, nat_eq,
  inter, inter-subset_left, inter-subset_right, all-subset, Bool-cases, &&-parts,
}
use mr_enderson.Authority.Tiers.{PTier, p_tier_eq, tier_leq, action_type_vocabulary}
use mr_enderson.Authority.Identifiers.{Unicode, ValueError}
use mr_enderson.Authority.Contracts.{
  zone_eq, Datetime, AuthorityScope, check_schema_version, check_vocabulary_version, check_ceiling,
  check_action_types, check_expires_at, floor_fits, check_tier_consistency, valid_objective,
  valid_scope, construct, construct_objective,
}
use mr_enderson.Authority.Algebra.{
  Authority, no_authority, scope, revalidated, min_ceiling, datetime_min, datetime_leq,
  versions_match,
}

-- What the constructor accepts, field by field.
pub record IsValid (u : Unicode) (s : AuthorityScope) : Type 0 where
  pub schema : check_schema_version s.schema_version ≡ true
  pub vocabulary : check_vocabulary_version s.vocabulary_version ≡ true
  pub ceiling : check_ceiling s.permission_ceiling ≡ true
  pub actions : check_action_types s.action_types ≡ true
  pub objective : valid_objective u s.objective_ref ≡ true
  pub expiry : check_expires_at s.expires_at ≡ true
  pub consistent : check_tier_consistency s.permission_ceiling s.action_types ≡ true

-- An authority is valid if it is the bottom or a scope that the constructor accepts.
abbrev pub IsAuthority : Unicode → Authority → Type 0
IsAuthority u no_authority = Unit
IsAuthority u (scope s) = IsValid u s

pub IsValid-of_test : (u : Unicode) (s : AuthorityScope) → valid_scope u s ≡ true → IsValid u s
unfolding valid_scope
IsValid-of_test u s h = ground arith

pub test_of_IsValid : (u : Unicode) (s : AuthorityScope) → IsValid u s → valid_scope u s ≡ true
unfolding valid_scope
test_of_IsValid u s v = ground arith

pub construct_valid : (u : Unicode) (s : AuthorityScope) → IsValid u s → construct u s ≡ ok s
unfolding construct
construct_valid u s v = ground (arith, test_of_IsValid u s v)

pub construct_inv :
    (u : Unicode) (s t : AuthorityScope) → construct u s ≡ ok t → IsValid u s × (t ≡ s)
unfolding construct
construct_inv u s t h = elim (Bool-cases (valid_scope u s)) [
  | inl good ↦ (IsValid-of_test u s good, ground (arith, good))
  | inr bad ↦ absurd (ground (arith, bad))
]

pub revalidated_valid : (u : Unicode) (s : AuthorityScope) → IsValid u s → revalidated u s ≡ ok s
unfolding revalidated construct_objective
revalidated_valid u s v = ground (arith, construct_valid u s v, v.objective)

pub revalidated_inv :
    (u : Unicode) (s t : AuthorityScope) → revalidated u s ≡ ok t → IsValid u s × (t ≡ s)
unfolding revalidated construct_objective
revalidated_inv u s t h = elim (Bool-cases (valid_objective u s.objective_ref)) [
  | inl good ↦ construct_inv u s t (ground (arith, good))
  | inr bad ↦ absurd (ground (arith, bad))
]

pub revalidated_raise :
    (u : Unicode) (s : AuthorityScope) (x : ValueError)
    → revalidated u s ≡ raise x
    → ¬ (IsValid u s)
revalidated_raise u s x h v = cc (revalidated_valid u s v)

pub versions_match_valid :
    (u : Unicode) (a b : AuthorityScope) → IsValid u a → IsValid u b → versions_match a b ≡ true
unfolding versions_match check_schema_version check_vocabulary_version
versions_match_valid u a b va vb =
    ground (arith, va.schema, vb.schema, va.vocabulary, vb.vocabulary)

-- The scope that `meet` builds from two scopes for one objective.
abbrev pub bound : AuthorityScope → AuthorityScope → AuthorityScope
bound a b = record a {
  permission_ceiling = min_ceiling a.permission_ceiling b.permission_ceiling;
  action_types = inter a.action_types b.action_types;
  expires_at = datetime_min a.expires_at b.expires_at;
}

-- A type that fits two ceilings fits the lower one.
check_ceiling_min :
    (a b : PTier)
    → check_ceiling a ≡ true
    → check_ceiling b ≡ true
    → check_ceiling (min_ceiling a b) ≡ true
check_ceiling_min a b h k = elim (Bool-cases (tier_leq a b)) [
  | inl low ↦ ground (arith, low)
  | inr high ↦ ground (arith, high)
]

consistent_min :
    (a b : PTier) (xs ys : List String)
    → check_tier_consistency a xs ≡ true
    → check_tier_consistency b ys ≡ true
    → check_tier_consistency (min_ceiling a b) (inter xs ys) ≡ true
unfolding check_tier_consistency
consistent_min a b xs ys h k = elim (Bool-cases (tier_leq a b)) [
  | inl low ↦ rw low (all-subset (floor_fits a) (inter xs ys) xs (inter-subset_left xs ys) h)
  | inr high ↦ rw high (all-subset (floor_fits b) (inter xs ys) ys (inter-subset_right xs ys) k)
]

actions_inter :
    (xs ys : List String)
    → is_empty (inter xs ys) ≡ false
    → check_action_types xs ≡ true
    → check_action_types (inter xs ys) ≡ true
unfolding check_action_types
actions_inter xs ys nonempty h =
    let (_, known) = &&-parts _ _ h in
    rw nonempty (
      all-subset (λ t. contains t action_type_vocabulary) (inter xs ys) xs (inter-subset_left xs ys)
        known)

expiry_min :
    (a b : Datetime)
    → check_expires_at a ≡ true
    → check_expires_at b ≡ true
    → check_expires_at (datetime_min a b) ≡ true
expiry_min a b h k = elim (Bool-cases (datetime_leq a b)) [
  | inl low ↦ ground (arith, low)
  | inr high ↦ ground (arith, high)
]

pub bound-IsValid :
    (u : Unicode) (a b : AuthorityScope)
    → IsValid u a
    → IsValid u b
    → is_empty (inter a.action_types b.action_types) ≡ false
    → IsValid u (bound a b)
bound-IsValid u a b va vb nonempty = record {
  schema = va.schema;
  vocabulary = va.vocabulary;
  ceiling = check_ceiling_min a.permission_ceiling b.permission_ceiling va.ceiling vb.ceiling;
  actions = actions_inter a.action_types b.action_types nonempty va.actions;
  objective = va.objective;
  expiry = expiry_min a.expires_at b.expires_at va.expiry vb.expiry;
  consistent =
      consistent_min a.permission_ceiling b.permission_ceiling a.action_types b.action_types
        va.consistent vb.consistent;
}
