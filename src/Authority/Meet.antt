-- ===== src/Authority/Meet.antt =====
-- `meet` of app/authority_contracts/algebra.py is the greatest lower bound for `leq`.
use mr_enderson.Base.{
  ◌≡◌, refl, sym, inl, inr, true, false, arith, ok, is_empty, inter, subset-inter, is_empty-subset,
  string_eq, Bool-cases, ◌∙◌,
}
use mr_enderson.Authority.Identifiers.{Unicode}
use mr_enderson.Authority.Contracts.{AuthorityScope, check_action_types}
use mr_enderson.Authority.Algebra.{Authority, no_authority, scope, objective_beq, leq, meet}
use mr_enderson.Authority.Validity.{IsValid, IsAuthority, bound, bound-IsValid}
use mr_enderson.Authority.Semilattice.{
  Below, objective_beq_refl, objective_beq-eq, bound_left, bound_right, bound_greatest,
  common_valid, meet_valid,
}
use mr_enderson.Authority.Order.{leq_iff_Below, leq_preorder}

module _ (u : Unicode) where
  -- What a meet of two valid scopes is: the bottom, where they share no objective or no action
  -- type, or else their bound.
  data Meets (a b : AuthorityScope) : Authority → Type 0 where
    apart : objective_beq a.objective_ref b.objective_ref ≡ false → Meets a b no_authority
    disjoint : is_empty (inter a.action_types b.action_types) ≡ true → Meets a b no_authority
    together :
        a.objective_ref ≡ b.objective_ref
        → is_empty (inter a.action_types b.action_types) ≡ false
        → Meets a b (scope (bound a b))

  meets :
      (a b : AuthorityScope)
      → IsValid u a
      → IsValid u b
      → (m : Authority) × (meet u (scope a) (scope b) ≡ ok m) × Meets a b m
  meets a b va vb = elim (Bool-cases (objective_beq a.objective_ref b.objective_ref)) [
    | inr other ↦ (no_authority, meet_valid u a b va vb ∙ rw other, apart other)
    | inl same ↦ elim (Bool-cases (is_empty (inter a.action_types b.action_types))) [
      | inl none_left ↦ (
        no_authority,
        meet_valid u a b va vb ∙ rw same (common_valid u a b va vb ∙ rw none_left),
        disjoint none_left,
      )
      | inr some_left ↦ (
        scope (bound a b),
        meet_valid u a b va vb ∙ rw same (common_valid u a b va vb ∙ rw some_left),
        together (objective_beq-eq a.objective_ref b.objective_ref same) some_left,
      )
    ]
  ]

  -- Whatever scope lies below both has their objective, and shares an action type with them.
  share_objective :
      (c a b : AuthorityScope)
      → Below c a
      → Below c b
      → objective_beq a.objective_ref b.objective_ref ≡ true
  share_objective c a b ca cb =
      rw (sym ca.same_objective ∙ cb.same_objective) (objective_beq_refl b.objective_ref)

  share_types :
      (c a b : AuthorityScope)
      → IsValid u c
      → Below c a
      → Below c b
      → is_empty (inter a.action_types b.action_types) ≡ false
  share_types c a b vc ca cb =
      is_empty-subset c.action_types (inter a.action_types b.action_types)
        (subset-inter c.action_types a.action_types b.action_types ca.fewer cb.fewer)
        (nonempty c vc)
    where
      nonempty : (c : AuthorityScope) → IsValid u c → is_empty c.action_types ≡ false
      nonempty c vc = unfold check_action_types in ground (arith, vc.actions)

  abbrev IsLowerBound : Authority → Authority → Authority → Type 0
  IsLowerBound m a b = (leq u m a ≡ ok true) × (leq u m b ≡ ok true)

  abbrev IsGreatest : Authority → Authority → Authority → Type 0
  IsGreatest m a b =
      (c : Authority) → leq u c a ≡ ok true → leq u c b ≡ ok true → leq u c m ≡ ok true

  -- It is enough to look at the valid scopes below both.
  IsGreatest-of_scopes :
      (m : Authority) (a b : AuthorityScope)
      → ((c : AuthorityScope) → IsValid u c → Below c a → Below c b → leq u (scope c) m ≡ ok true)
      → IsGreatest m (scope a) (scope b)
  IsGreatest-of_scopes m a b h no_authority ca cb = (leq_preorder u).2 m
  IsGreatest-of_scopes m a b h (scope c) ca cb =
      let (vc, _, below_a) = (leq_iff_Below u c a).0 ca in
      let (_, _, below_b) = (leq_iff_Below u c b).0 cb in h c vc below_a below_b

  Meets-glb :
      (a b : AuthorityScope) (m : Authority)
      → IsValid u a
      → IsValid u b
      → Meets a b m
      → IsLowerBound m (scope a) (scope b) × IsGreatest m (scope a) (scope b) × IsAuthority u m
  Meets-glb a b m va vb (apart other) = (
    ((leq_preorder u).2 (scope a), (leq_preorder u).2 (scope b)),
    IsGreatest-of_scopes no_authority a b (λ c vc ca cb. absurd (cc (share_objective c a b ca cb))),
    tt,
  )
  Meets-glb a b m va vb (disjoint none_left) = (
    ((leq_preorder u).2 (scope a), (leq_preorder u).2 (scope b)),
    IsGreatest-of_scopes no_authority a b (λ c vc ca cb. absurd (cc (share_types c a b vc ca cb))),
    tt,
  )
  Meets-glb a b m va vb (together same some_left) = (
    (
      (leq_iff_Below u (bound a b) a).1 (valid, va, bound_left a b),
      (leq_iff_Below u (bound a b) b).1 (valid, vb, bound_right a b same),
    ),
    IsGreatest-of_scopes (scope (bound a b)) a b
        (λ c vc ca cb. (leq_iff_Below u c (bound a b)).1 (vc, valid, bound_greatest c a b ca cb)),
    valid,
  )
    where
      valid : IsValid u (bound a b)
      valid = bound-IsValid u a b va vb some_left

  -- Of two valid authorities `meet` never raises. What it returns is valid, is below both, and
  -- is above every authority that is below both.
  pub meet_glb :
      (a b : Authority)
      → IsAuthority u a
      → IsAuthority u b
      → (m : Authority) × (meet u a b ≡ ok m)
        × IsAuthority u m
        × (leq u m a ≡ ok true)
        × (leq u m b ≡ ok true)
        × ((c : Authority) → leq u c a ≡ ok true → leq u c b ≡ ok true → leq u c m ≡ ok true)
  meet_glb no_authority b va vb = (
    no_authority,
    unfold meet in refl,
    tt,
    (leq_preorder u).2 no_authority,
    (leq_preorder u).2 b,
    λ c ca cb. ca,
  )
  meet_glb (scope a) no_authority va vb = (
    no_authority,
    unfold meet in refl,
    tt,
    (leq_preorder u).2 (scope a),
    (leq_preorder u).2 no_authority,
    λ c ca cb. cb,
  )
  meet_glb (scope a) (scope b) va vb =
      let (m, e, how) = meets a b va vb in
      let (lower, greatest, valid) = Meets-glb a b m va vb how in
      (m, e, valid, lower.0, lower.1, greatest)
