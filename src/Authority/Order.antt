-- ===== src/Authority/Order.antt =====
-- `leq` and `meet` of app/authority_contracts/algebra.py on every operand, tampered ones included.
use mr_enderson.Base.{
  ◌≡◌, refl, ◌↔◌, ◌⊎◌, inl, inr, true, false, Outcome, ok, raise, string_eq, Bool-cases,
}
use mr_enderson.Authority.Identifiers.{Unicode, ValueError, value_error}
use mr_enderson.Authority.Contracts.{AuthorityScope}
use mr_enderson.Authority.Algebra.{
  Authority, no_authority, scope, versions_match, revalidated, leq, meet,
}
use mr_enderson.Authority.Validity.{IsValid, IsAuthority, revalidated_inv, revalidated_raise}
use mr_enderson.Authority.Semilattice.{Below, scope_leq_iff, Below-refl, Below-trans, leq_valid}

module _ (u : Unicode) where
  -- A revalidated pair of scopes: both are valid, or the call raises.
  pub both-IsValid :
      (a b : AuthorityScope) → (IsValid u a × IsValid u b) ⊎ (¬ (IsValid u a × IsValid u b))
  both-IsValid a b = go (revalidated u a) refl (revalidated u b) refl
    where
      go :
          (r : Outcome ValueError AuthorityScope)
          → revalidated u a ≡ r
          → (t : Outcome ValueError AuthorityScope) → revalidated u b ≡ t
          → (IsValid u a × IsValid u b) ⊎ (¬ (IsValid u a × IsValid u b))
      go (ok x) p (ok y) q = inl ((revalidated_inv u a x p).0, (revalidated_inv u b y q).0)
      go (ok x) p (raise y) q = inr (λ (_, v). revalidated_raise u b y q v)
      go (raise x) p t q = inr (λ (v, _). revalidated_raise u a x p v)

  pub raises_invalid :
      (a b : AuthorityScope)
      → versions_match a b ≡ true
      → ¬ (IsValid u a × IsValid u b)
      → (leq u (scope a) (scope b) ≡ raise value_error)
        × (meet u (scope a) (scope b) ≡ raise value_error)
  unfolding leq meet
  raises_invalid a b same bad = go (revalidated u a) refl (revalidated u b) refl
    where
      go :
          (r : Outcome ValueError AuthorityScope)
          → revalidated u a ≡ r
          → (t : Outcome ValueError AuthorityScope) → revalidated u b ≡ t
          → (leq u (scope a) (scope b) ≡ raise value_error)
            × (meet u (scope a) (scope b) ≡ raise value_error)
      go (ok x) p (ok y) q = absurd (bad ((revalidated_inv u a x p).0, (revalidated_inv u b y q).0))
      go (ok x) p (raise value_error) q = (rw (same, p, q), rw (same, p, q))
      go (raise value_error) p t q = (rw (same, p), rw (same, p))

  -- Two scopes whose versions differ are unrelated, and their meet is NO_AUTHORITY. Where the
  -- versions agree and one of the scopes would not pass the validated constructor, `leq` and
  -- `meet` both raise.
  pub leq_fail_closed :
      (a b : AuthorityScope)
      → (versions_match a b ≡ false
          → (leq u (scope a) (scope b) ≡ ok false) × (meet u (scope a) (scope b) ≡ ok no_authority))
        × (versions_match a b ≡ true
            → ¬ (IsValid u a × IsValid u b)
            → (leq u (scope a) (scope b) ≡ raise value_error)
              × (meet u (scope a) (scope b) ≡ raise value_error))
  unfolding leq meet
  leq_fail_closed a b = (λ differ. (rw differ, rw differ), raises_invalid a b)

  -- `leq` answers true of two scopes exactly when both would pass the validated constructor,
  -- name the same objective, and the first has no higher ceiling, no further action type and no
  -- later expiry than the second.
  pub leq_iff_Below :
      (a b : AuthorityScope)
      → (leq u (scope a) (scope b) ≡ ok true) ↔ (IsValid u a × IsValid u b × Below a b)
  leq_iff_Below a b = (forward, backward)
    where
      backward : IsValid u a × IsValid u b × Below a b → leq u (scope a) (scope b) ≡ ok true
      backward (va, vb, below) = rw (leq_valid u a b va vb) (rw ((scope_leq_iff a b).1 below))

      valid_case :
          IsValid u a × IsValid u b
          → leq u (scope a) (scope b) ≡ ok true
          → IsValid u a × IsValid u b × Below a b
      valid_case (va, vb) h = (va, vb, (scope_leq_iff a b).0 (cc (leq_valid u a b va vb)))

      forward : leq u (scope a) (scope b) ≡ ok true → IsValid u a × IsValid u b × Below a b
      forward h = elim (both-IsValid a b) [
        | inl v ↦ valid_case v h
        | inr bad ↦ elim (Bool-cases (versions_match a b)) [
          | inl same ↦ absurd (cc ((raises_invalid a b same bad).0))
          | inr differ ↦ absurd (cc (((leq_fail_closed a b).0 differ).0))
        ]
      ]

  -- On valid authorities `leq` never raises and is reflexive; on any operands at all it is
  -- transitive; and NO_AUTHORITY is below everything, with nothing but itself below it.
  pub leq_preorder :
      ((a : Authority) → IsAuthority u a → leq u a a ≡ ok true)
      × ((a b c : Authority) → leq u a b ≡ ok true → leq u b c ≡ ok true → leq u a c ≡ ok true)
      × ((a : Authority) → leq u no_authority a ≡ ok true)
      × ((a : Authority) → leq u a no_authority ≡ ok true → a ≡ no_authority)
  leq_preorder = (reflexive, transitive, bottom, below_bottom)
    where
      reflexive : (a : Authority) → IsAuthority u a → leq u a a ≡ ok true
      reflexive no_authority v = unfold leq in refl
      reflexive (scope a) v = (leq_iff_Below a a).1 (v, v, Below-refl a)

      below_bottom : (a : Authority) → leq u a no_authority ≡ ok true → a ≡ no_authority
      below_bottom no_authority h = refl
      below_bottom (scope a) h = unfold leq in cc

      bottom : (a : Authority) → leq u no_authority a ≡ ok true
      bottom a = unfold leq in refl

      transitive :
          (a b c : Authority) → leq u a b ≡ ok true → leq u b c ≡ ok true → leq u a c ≡ ok true
      transitive no_authority b c h k = bottom c
      transitive (scope a) no_authority c h k = unfold leq in cc
      transitive (scope a) (scope b) no_authority h k = unfold leq in cc
      transitive (scope a) (scope b) (scope c) h k =
          let (va, _, ab) = (leq_iff_Below a b).0 h in
          let (_, vc, bc) = (leq_iff_Below b c).0 k in
          (leq_iff_Below a c).1 (va, vc, Below-trans a b c ab bc)
