-- ===== src/Executor/Cleared.antt =====
-- What the gates let through.
use mr_enderson.Base.{
  ◌≡◌, ◌≢◌, refl, ◌⊎◌, inl, inr, true, Option, none, some, arith, ◌==◌, string_eq, ==→≡, ==→≢,
  Outcome, ok, raise, ◌>>◌, Bool-cases, lookup,
}
use mr_enderson.Schemas.{Action, ActionStatus, action_status_eq, ApprovalRequest}
use mr_enderson.PermissionEngine.Levels.{block, require_approval, permission_outcome_eq}
use mr_enderson.PermissionEngine.Decisions.{PermissionDecision}
use mr_enderson.ApprovalEngine.Hash.{Digest}
use mr_enderson.ApprovalEngine.Lifecycle.{IsUsable, IsFor, valid_iff}
use mr_enderson.ApprovalEngine.Validity.{validate_approval_for_action}
use mr_enderson.Executor.Approvals.{Approvals, load_approval_request, consume_if_valid}
use mr_enderson.Executor.Outcomes.{Refusal, Texts, Readings}
use mr_enderson.Executor.Gate.{
  gates, use_row, consume_row, use_approval, check_validity, consume_in_memory,
}

-- The request that counts: the durable row, where there is a repository.
abbrev pub counted : Option Approvals → ApprovalRequest → Option ApprovalRequest
counted none given = some given
counted (some rows) given = lookup given.id rows

module _ (digest : Digest) (texts : Texts) (at : Readings) (others : Approvals → Approvals) where
  -- The request that counts is approved, unused and unexpired, and was made for the action.
  pub record IsApproved (repo : Option Approvals) (request : Option ApprovalRequest)
      (action : Action) : Type 0 where
    pub given : ApprovalRequest
    pub current : ApprovalRequest
    pub supplied : request ≡ some given
    pub found : counted repo given ≡ some current
    pub usable : IsUsable current at.validating
    pub for_action : IsFor digest current action

  check-valid :
      (request : ApprovalRequest) (action : Action)
      → check_validity digest texts at others request action ≡ ok tt
      → IsUsable request at.validating × IsFor digest request action
  unfolding check_validity
  check-valid request action h =
      elim (Bool-cases (validate_approval_for_action digest request action at.validating).valid) [
        | inl e ↦ (valid_iff digest request at.validating action).0 e
        | inr e ↦ absurd (ground (arith, e, h))
      ]

  -- Neither a blocked action, nor one that needs an approval and has none.
  abbrev pub IsCleared :
      Option Approvals → Option ApprovalRequest → Action → PermissionDecision → Type 0
  IsCleared repo request action decision =
      ((decision.outcome ≡ require_approval)
        × (action.status ≡ ActionStatus.approved)
        × IsApproved repo request action)
      ⊎ ((decision.outcome ≢ block)
          × (decision.outcome ≢ require_approval)
          × (action.status ≡ ActionStatus.permission_checked))

  -- A loaded row that the gate accepts is valid, and the update matches.
  pub use_row_ok :
      (rows : Approvals) (current : ApprovalRequest) (action : Action)
      → (use_row digest texts at others rows (some current) action).1 ≡ ok tt
      → (check_validity digest texts at others current action ≡ ok tt)
        × ((use_row digest texts at others rows (some current) action).0
            ≡ some
                (consume_if_valid
                  (others rows)
                  current.id
                  action.id
                  current.action_hash
                  at.consuming).0)
        × ((consume_if_valid (others rows) current.id action.id current.action_hash at.consuming).1
            ≡ true)
  unfolding use_row consume_row
  use_row_ok rows current action h = go (check_validity digest texts at others current action) refl
    where
      go :
          (c : Outcome Refusal (Unit {0}))
          → check_validity digest texts at others current action ≡ c
          → (check_validity digest texts at others current action ≡ ok tt)
            × ((use_row digest texts at others rows (some current) action).0
                ≡ some
                    (consume_if_valid
                      (others rows)
                      current.id
                      action.id
                      current.action_hash
                      at.consuming).0)
            × ((consume_if_valid
                  (others rows)
                  current.id
                  action.id
                  current.action_hash
                  at.consuming).1
                ≡ true)
      go (raise x) e = absurd (cc (rw (use_row, e) at h))
      go (ok tt) e =
          elim (Bool-cases
            (consume_if_valid (others rows) current.id action.id current.action_hash
              at.consuming).1) [
                | inl t ↦ (e, rw (use_row, e) refl, t)
                | inr f ↦ absurd (cc (rw (use_row, e, consume_row, f) at h))
              ]

  use_approval-IsApproved :
      (repo : Option Approvals) (request : Option ApprovalRequest) (action : Action)
      → (use_approval digest texts at others repo request action).1 ≡ ok tt
      → IsApproved repo request action
  unfolding use_approval load_approval_request
  use_approval-IsApproved repo none action h = cc
  use_approval-IsApproved none (some given) action h =
      go (check_validity digest texts at others given action) refl h
    where
      go :
          (c : Outcome Refusal (Unit {0}))
          → check_validity digest texts at others given action ≡ c
          → (c >> consume_in_memory digest texts at others given action) ≡ ok tt
          → IsApproved none (some given) action
      go (raise x) e k = cc
      go (ok tt) e k =
          let (usable, for_action) = check-valid given action e in
          record {
            given = given;
            current = given;
            supplied = refl;
            found = refl;
            usable = usable;
            for_action = for_action;
          }
  use_approval-IsApproved (some rows) (some given) action h = loaded (lookup given.id rows) refl h
    where
      loaded :
          (o : Option ApprovalRequest)
          → lookup given.id rows ≡ o
          → (use_row digest texts at others rows o action).1 ≡ ok tt
          → IsApproved (some rows) (some given) action
      loaded none e k = cc
      loaded (some current) e k =
          let (usable, for_action) =
            check-valid current action (use_row_ok rows current action k).0 in
          record {
            given = given;
            current = current;
            supplied = refl;
            found = e;
            usable = usable;
            for_action = for_action;
          }

  pub gates-IsCleared :
      (repo : Option Approvals) (request : Option ApprovalRequest) (action : Action)
      (decision : PermissionDecision)
      → (gates digest texts at others repo request action decision).1 ≡ ok tt
      → IsCleared repo request action decision
  unfolding gates
  gates-IsCleared repo request action decision h = elim (Bool-cases (decision.outcome == block)) [
    | inl b ↦ absurd (ground (arith, b, h))
    | inr b ↦ elim (Bool-cases (decision.outcome == require_approval)) [
      | inl r ↦ elim (Bool-cases (action.status == ActionStatus.approved)) [
        | inl s ↦ inl (
          ==→≡ decision.outcome require_approval r,
          ==→≡ action.status ActionStatus.approved s,
          use_approval-IsApproved repo request action (rw (b, r, s) at h),
        )
        | inr s ↦ absurd (ground (arith, b, r, s, h))
      ]
      | inr r ↦ elim (Bool-cases (action.status == ActionStatus.permission_checked)) [
        | inl s ↦ inr (
          ==→≢ decision.outcome block b,
          ==→≢ decision.outcome require_approval r,
          ==→≡ action.status ActionStatus.permission_checked s,
        )
        | inr s ↦ absurd (ground (arith, b, r, s, h))
      ]
    ]
  ]
