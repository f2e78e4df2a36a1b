-- ===== src/Authority/Semilattice.antt =====
-- The order on valid scopes, and `leq` and `meet` there.
use mr_enderson.Base.{
  ◌≤◌, ◌≡◌, refl, ◌↔◌, inl, inr, Bool, true, ◌&&◌, arith, ◌==◌, ok, is_empty, string_eq, nat_eq,
  ==→≡, ==-refl, subset, inter, subset_refl, subset_trans, inter-subset_left, inter-subset_right,
  subset-inter, Bool-cases, &&-parts, leb→le, le→leb, ◌∙◌, if◌then◌else◌,
}
use mr_enderson.Authority.Tiers.{PTier, tier_leq}
use mr_enderson.Authority.Identifiers.{Unicode}
use mr_enderson.Authority.Contracts.{ObjectiveRef, AuthorityScope}
use mr_enderson.Authority.Algebra.{
  no_authority, scope, objective_beq, datetime_leq, min_ceiling, scope_leq, leq, common, meet,
}
use mr_enderson.Authority.Validity.{
  IsValid, revalidated_valid, construct_valid, versions_match_valid, bound, bound-IsValid,
}

tier_leq_refl : (a : PTier) → tier_leq a a ≡ true
unfolding tier_leq
tier_leq_refl a = ground arith

tier_leq_trans : (a b c : PTier) → tier_leq a b ≡ true → tier_leq b c ≡ true → tier_leq a c ≡ true
unfolding tier_leq
tier_leq_trans a b c h k = ground arith

min_ceiling_left : (a b : PTier) → tier_leq (min_ceiling a b) a ≡ true
unfolding tier_leq
min_ceiling_left a b = ground arith

min_ceiling_right : (a b : PTier) → tier_leq (min_ceiling a b) b ≡ true
unfolding tier_leq
min_ceiling_right a b = ground arith

min_ceiling_greatest :
    (c a b : PTier)
    → tier_leq c a ≡ true
    → tier_leq c b ≡ true
    → tier_leq c (min_ceiling a b) ≡ true
min_ceiling_greatest c a b h k = elim (Bool-cases (tier_leq a b)) [
  | inl low ↦ rw low h
  | inr high ↦ rw high k
]

pub objective_beq_refl : (a : ObjectiveRef) → objective_beq a a ≡ true
objective_beq_refl a = ground (arith, ==-refl a.objective_id, ==-refl a.objective_version)

pub objective_beq-eq : (a b : ObjectiveRef) → objective_beq a b ≡ true → a ≡ b
objective_beq-eq a b h =
    let (p, q) =
      &&-parts (a.objective_id == b.objective_id) (a.objective_version == b.objective_version) h in
    ground
      (arith, ==→≡ a.objective_id b.objective_id p, ==→≡ a.objective_version b.objective_version q)

-- `scope_leq` as its four comparisons.
pub record Below (a b : AuthorityScope) : Type 0 where
  pub same_objective : a.objective_ref ≡ b.objective_ref
  pub lower : tier_leq a.permission_ceiling b.permission_ceiling ≡ true
  pub fewer : subset a.action_types b.action_types ≡ true
  pub earlier : a.expires_at.instant ≤ b.expires_at.instant

and_parts4 :
    (p q r t : Bool)
    → ((p && (q && (r && t))) ≡ true) ↔ ((p ≡ true) × (q ≡ true) × (r ≡ true) × (t ≡ true))
and_parts4 p q r t = ground arith

pub scope_leq_iff : (a b : AuthorityScope) → (scope_leq a b ≡ true) ↔ Below a b
unfolding scope_leq
scope_leq_iff a b = (split, join)
  where
    parts : (scope_leq a b ≡ true) ↔ (
        (objective_beq a.objective_ref b.objective_ref ≡ true)
        × (tier_leq a.permission_ceiling b.permission_ceiling ≡ true)
        × (subset a.action_types b.action_types ≡ true)
        × (datetime_leq a.expires_at b.expires_at ≡ true))
    parts = and_parts4 _ _ _ _

    split : scope_leq a b ≡ true → Below a b
    split h =
        let (p, q, r, t) = parts.0 h in
        record {
          same_objective = objective_beq-eq a.objective_ref b.objective_ref p;
          lower = q;
          fewer = r;
          earlier = leb→le _ _ t;
        }

    join : Below a b → scope_leq a b ≡ true
    join h = parts.1 (
      rw h.same_objective (objective_beq_refl b.objective_ref),
      h.lower,
      h.fewer,
      le→leb _ _ h.earlier,
    )

pub Below-refl : (a : AuthorityScope) → Below a a
Below-refl a = record {
  same_objective = refl;
  lower = tier_leq_refl a.permission_ceiling;
  fewer = subset_refl a.action_types;
  earlier = omega arith;
}

pub Below-trans : (a b c : AuthorityScope) → Below a b → Below b c → Below a c
Below-trans a b c h k = record {
  same_objective = h.same_objective ∙ k.same_objective;
  lower =
      tier_leq_trans a.permission_ceiling b.permission_ceiling c.permission_ceiling h.lower k.lower;
  fewer = subset_trans a.action_types b.action_types c.action_types h.fewer k.fewer;
  earlier = omega arith;
}

-- `bound` is below both of its scopes, and above whatever is below both.
pub bound_left : (a b : AuthorityScope) → Below (bound a b) a
bound_left a b = record {
  same_objective = refl;
  lower = min_ceiling_left a.permission_ceiling b.permission_ceiling;
  fewer = inter-subset_left a.action_types b.action_types;
  earlier = ground arith;
}

pub bound_right : (a b : AuthorityScope) → a.objective_ref ≡ b.objective_ref → Below (bound a b) b
bound_right a b e = record {
  same_objective = e;
  lower = min_ceiling_right a.permission_ceiling b.permission_ceiling;
  fewer = inter-subset_right a.action_types b.action_types;
  earlier = ground arith;
}

pub bound_greatest : (c a b : AuthorityScope) → Below c a → Below c b → Below c (bound a b)
bound_greatest c a b h k = record {
  same_objective = h.same_objective;
  lower =
      min_ceiling_greatest c.permission_ceiling a.permission_ceiling b.permission_ceiling h.lower
        k.lower;
  fewer = subset-inter c.action_types a.action_types b.action_types h.fewer k.fewer;
  earlier = ground (arith, h.earlier, k.earlier);
}

module _ (u : Unicode) where
  pub leq_valid :
      (a b : AuthorityScope)
      → IsValid u a
      → IsValid u b
      → leq u (scope a) (scope b) ≡ ok (scope_leq a b)
  unfolding leq
  leq_valid a b va vb =
      rw (versions_match_valid u a b va vb, revalidated_valid u a va, revalidated_valid u b vb)

  pub common_valid :
      (a b : AuthorityScope)
      → IsValid u a
      → IsValid u b
      → common u a b ≡ (
          if is_empty (inter a.action_types b.action_types)
          then ok no_authority
          else ok (scope (bound a b)))
  unfolding common
  common_valid a b va vb = elim (Bool-cases (is_empty (inter a.action_types b.action_types))) [
    | inl e ↦ rw e
    | inr n ↦ rw (n, construct_valid u (bound a b) (bound-IsValid u a b va vb n))
  ]

  pub meet_valid :
      (a b : AuthorityScope)
      → IsValid u a
      → IsValid u b
      → meet u (scope a) (scope b)
        ≡ (if objective_beq a.objective_ref b.objective_ref then common u a b else ok no_authority)
  unfolding meet
  meet_valid a b va vb =
      rw (versions_match_valid u a b va vb, revalidated_valid u a va, revalidated_valid u b vb)
