-- ===== src/ApprovalEngine/Lifecycle.antt =====
-- The gate: an approval is valid exactly under the five documented conditions, and the calls
-- that go through the gate succeed exactly then.
use mr_enderson.Base.{
  ℕ, ◌≡◌, refl, ◌↔◌, inl, inr, String, Bool, true, false, not, Option, none, some, ◌++◌, arith,
  ◌==◌, string_eq, ==→≡, ==-refl, Outcome, ok, raise, is_ok, ◌>>◌, is_empty, Bool-cases,
}
use mr_enderson.Schemas.{
  ActionStatus, ApprovalRequestStatus, approval_request_status_eq, Action, ApprovalRequest,
}
use mr_enderson.StateMachines.Action.{assert_transition}
use mr_enderson.ApprovalEngine.Hash.{Digest, compute_action_hash}
use mr_enderson.ApprovalEngine.Requests.{ApprovalError, is_expired, transition}
use mr_enderson.ApprovalEngine.Validity.{
  ValidityReason, ApprovalValidityResult, validity_reasons, wrong_action, wrong_hash,
  check_approval_validity, validate_approval_for_action, assert_approval_valid, authorize_action,
  when_failed,
}

-- The conditions of `check_approval_validity`.
pub record IsUsable (r : ApprovalRequest) (now : ℕ) : Type 0 where
  pub approved : r.status ≡ ApprovalRequestStatus.approved
  pub unused : r.consumed ≡ false
  pub current : is_expired r now ≡ false

pub record IsFor (digest : Digest) (r : ApprovalRequest) (a : Action) : Type 0 where
  pub same_action : r.action_id ≡ a.id
  pub same_payload : compute_action_hash digest a ≡ r.action_hash

no_reasons_iff :
    (p q r s t : Bool) (a b c d e : ValidityReason)
    → (is_empty (
          when_failed p a
          ++ (when_failed q b ++ (when_failed r c ++ (when_failed s d ++ when_failed t e))))
        ≡ true)
      ↔ ((p ≡ false) × (q ≡ false) × (r ≡ false) × (s ≡ false) × (t ≡ false))
no_reasons_iff p q r s t a b c d e = ground arith

-- Whether a status is APPROVED, and whether two texts agree, as facts.
approved_iff :
    (s : ApprovalRequestStatus)
    → (not (s == ApprovalRequestStatus.approved) ≡ false) ↔ (s ≡ ApprovalRequestStatus.approved)
approved_iff s = ground arith

text_iff : (a b : String) → (not (a == b) ≡ false) ↔ (a ≡ b)
text_iff a b = (
  λ h. elim (Bool-cases (a == b)) [
    | inl same ↦ ==→≡ a b same
    | inr other ↦ absurd (ground (arith, other))
  ],
  λ e. rw (e, ==-refl b),
)

module _ (digest : Digest) (r : ApprovalRequest) (now : ℕ) where
  pub reasons_nil_iff :
      (o : Option Action)
      → (is_empty (validity_reasons digest r o now) ≡ true) ↔ (
          (not (r.status == ApprovalRequestStatus.approved) ≡ false)
          × (wrong_action digest r o ≡ false)
          × (wrong_hash digest r o ≡ false)
          × (r.consumed ≡ false)
          × (is_expired r now ≡ false))
  unfolding validity_reasons
  reasons_nil_iff o = no_reasons_iff _ _ _ _ _ _ _ _ _ _

  pub reasons_none_iff : (is_empty (validity_reasons digest r none now) ≡ true) ↔ IsUsable r now
  unfolding wrong_action wrong_hash
  reasons_none_iff = (
    λ h.
        let (p, _, _, s, t) = (reasons_nil_iff none).0 h in
        record { approved = (approved_iff r.status).0 p; unused = s; current = t },
    λ v.
        (reasons_nil_iff none).1
          ((approved_iff r.status).1 v.approved, refl, refl, v.unused, v.current),
  )

  pub reasons_some_iff :
      (a : Action)
      → (is_empty (validity_reasons digest r (some a) now) ≡ true)
        ↔ (IsUsable r now × IsFor digest r a)
  unfolding wrong_action wrong_hash
  reasons_some_iff a = (
    λ h.
        let (p, q, w, s, t) = (reasons_nil_iff (some a)).0 h in
        (
          record { approved = (approved_iff r.status).0 p; unused = s; current = t },
          record {
            same_action = (text_iff r.action_id a.id).0 q;
            same_payload = (text_iff (compute_action_hash digest a) r.action_hash).0 w;
          },
        ),
    λ (v, f). (reasons_nil_iff (some a)).1 (
      (approved_iff r.status).1 v.approved,
      (text_iff r.action_id a.id).1 f.same_action,
      (text_iff (compute_action_hash digest a) r.action_hash).1 f.same_payload,
      v.unused,
      v.current,
    ),
  )

  -- The gate finds an approval valid for an action exactly when it is APPROVED, unconsumed, not
  -- yet at its expiry, and bound to the action's id and to the hash of its current payload.
  pub valid_iff :
      (a : Action)
      → ((validate_approval_for_action digest r a now).valid ≡ true)
        ↔ (IsUsable r now × IsFor digest r a)
  unfolding validate_approval_for_action
  valid_iff a = reasons_some_iff a

  -- The gate that raises lets through exactly what the gate that reports finds valid.
  asserted_iff :
      (o : Option Action)
      → (is_ok (assert_approval_valid digest r o now) ≡ true)
        ↔ (is_empty (validity_reasons digest r o now) ≡ true)
  unfolding assert_approval_valid
  asserted_iff o = elim (Bool-cases (is_empty (validity_reasons digest r o now))) [
    | inl none_failed ↦ ground (arith, none_failed)
    | inr some_failed ↦ ground (arith, some_failed)
  ]

  -- What the gate lets through passes; all else raises.
  pub assert_passes :
      (o : Option Action)
      → is_empty (validity_reasons digest r o now) ≡ true
      → assert_approval_valid digest r o now ≡ ok (check_approval_validity digest r o now)
  unfolding assert_approval_valid
  assert_passes o h = rw h

  pub assert_stops :
      (o : Option Action)
      → is_empty (validity_reasons digest r o now) ≡ false
      → (e : ApprovalError) × (assert_approval_valid digest r o now ≡ raise e)
  assert_stops o h = go (assert_approval_valid digest r o now) refl
    where
      go :
          (t : Outcome ApprovalError ApprovalValidityResult)
          → assert_approval_valid digest r o now ≡ t
          → (e : ApprovalError) × (assert_approval_valid digest r o now ≡ raise e)
      go (raise e) p = (e, p)
      go (ok v) p = absurd (ground (arith, h, (asserted_iff o).0 (rw p)))

  -- A call behind the gate returns only where the gate lets it through.
  pub gated {ℓ} :
      {X : Type ℓ} (o : Option Action) (k : Outcome ApprovalError X) {x : X}
      → (assert_approval_valid digest r o now >> k) ≡ ok x
      → (is_empty (validity_reasons digest r o now) ≡ true) × (k ≡ ok x)
  gated o k h = elim (Bool-cases (is_empty (validity_reasons digest r o now))) [
    | inl good ↦ (good, rw (assert_passes o good) at h)
    | inr bad ↦ let (e, stop) = assert_stops o bad in absurd (cc (rw stop at h))
  ]

  -- `authorize_action` succeeds exactly when the action waits for approval and the gate finds
  -- the request valid for it; it then changes nothing but the status, to APPROVED.
  pub authorize_iff :
      (a b : Action)
      → (authorize_action digest a r now ≡ ok b) ↔ (
          IsUsable r now
          × IsFor digest r a
          × (a.status ≡ ActionStatus.waiting_for_approval)
          × (b ≡ record a { status = ActionStatus.approved }))
  unfolding authorize_action
  authorize_iff a b = (forward, backward)
    where
      moved :
          (s : ActionStatus)
          → (transition s ActionStatus.approved >> ok (record a { status = ActionStatus.approved }))
            ≡ ok b
          → (s ≡ ActionStatus.waiting_for_approval)
            × (b ≡ record a { status = ActionStatus.approved })
      moved s h = unfold assert_transition in ground arith

      forward :
          authorize_action digest a r now ≡ ok b
          → IsUsable r now
            × IsFor digest r a
            × (a.status ≡ ActionStatus.waiting_for_approval)
            × (b ≡ record a { status = ActionStatus.approved })
      forward h =
          let (good, rest) =
            gated (some a)
              (transition a.status ActionStatus.approved
                >> ok (record a { status = ActionStatus.approved }))
              h in
          let (v, f) = (reasons_some_iff a).0 good in
          let (waiting, same) = moved a.status rest in (v, f, waiting, same)

      backward :
          IsUsable r now
            × IsFor digest r a
            × (a.status ≡ ActionStatus.waiting_for_approval)
            × (b ≡ record a { status = ActionStatus.approved })
          → authorize_action digest a r now ≡ ok b
      backward (v, f, waiting, same) =
          rw (assert_passes (some a) ((reasons_some_iff a).1 (v, f)))
            (unfold assert_transition in ground (arith, waiting, same))
