-- ===== src/ApprovalEngine/Provenance.antt =====
-- Whatever is authorized was approved: from the creation of a request to `authorize_action`.
use mr_enderson.Base.{
  ℕ, ◌<◌, ◌≡◌, sym, ◌∙◌, ◌≢◌, String, false, Option, some, arith, ◌==◌, string_eq, ==→≢, ok,
}
use mr_enderson.Schemas.{ApprovalRequestStatus, approval_request_status_eq, Action, ApprovalRequest}
use mr_enderson.PermissionEngine.Levels.{require_approval}
use mr_enderson.PermissionEngine.Decisions.{PermissionDecision, ReasonCode}
use mr_enderson.ApprovalEngine.Hash.{
  Digest, compute_action_hash, canonical_action_payload, DoNotCollide,
}
use mr_enderson.ApprovalEngine.Requests.{
  DecisionKind, approve, create_approval_request, decide_approval, is_expired, or_ttl,
}
use mr_enderson.ApprovalEngine.Validity.{authorize_action}
use mr_enderson.ApprovalEngine.Lifecycle.{authorize_iff}

module _ (digest : Digest) where
  create_inv :
      (code_name : ReasonCode → String) (asked : ℕ) (fresh requested_by reason : String)
      (expires_at : Option ℕ) (a : Action) (d : PermissionDecision) (r : ApprovalRequest)
      → create_approval_request digest code_name asked fresh a d requested_by reason expires_at
        ≡ ok r
      → (d.outcome ≡ require_approval)
        × (r.action_id ≡ a.id)
        × (r.action_hash ≡ compute_action_hash digest a)
        × (r.expires_at ≡ some (or_ttl expires_at asked))
        × (r.requested_by ≡ requested_by)
  unfolding create_approval_request
  create_inv code_name asked fresh requested_by reason expires_at a d r h = ground arith

  decide_inv :
      (decided : ℕ) (r s : ApprovalRequest) (kind : DecisionKind) (decided_by : String)
      → decide_approval decided r kind decided_by ≡ ok s
      → s.status ≡ ApprovalRequestStatus.approved
      → (kind ≡ approve)
        × ((decided_by == "") ≡ false)
        × ((decided_by == r.requested_by) ≡ false)
        × (s.action_id ≡ r.action_id)
        × (s.action_hash ≡ r.action_hash)
        × (s.expires_at ≡ r.expires_at)
  unfolding decide_approval
  decide_inv decided r s kind decided_by h approved = ground arith

  not_expired_lt :
      (s : ApprovalRequest) (now t : ℕ) → s.expires_at ≡ some t → is_expired s now ≡ false → now < t
  unfolding is_expired
  not_expired_lt s now t e h = ground arith

  -- From the creation of a request for an action to its authorization of an action: where the
  -- payloads of the two do not collide, the engine had asked for approval, somebody who is named and is
  -- not the requester approved, the action that is authorized has the id and the hashed payload
  -- of the one for which approval was requested, and the expiry had not come.
  pub authorized_was_approved :
      (code_name : ReasonCode → String) (asked decided now : ℕ)
      (fresh requested_by reason decided_by : String) (expires_at : Option ℕ) (a b c : Action)
      (d : PermissionDecision) (kind : DecisionKind) (r s : ApprovalRequest)
      → DoNotCollide digest (canonical_action_payload b) (canonical_action_payload a)
      → create_approval_request digest code_name asked fresh a d requested_by reason expires_at
        ≡ ok r
      → decide_approval decided r kind decided_by ≡ ok s
      → authorize_action digest b s now ≡ ok c
      → (d.outcome ≡ require_approval)
        × (kind ≡ approve)
        × (decided_by ≢ "")
        × (decided_by ≢ requested_by)
        × (b.id ≡ a.id)
        × (canonical_action_payload b ≡ canonical_action_payload a)
        × (now < or_ttl expires_at asked)
  unfolding compute_action_hash
  authorized_was_approved code_name asked decided now fresh requested_by reason decided_by
        expires_at a b c d kind r s inj created chosen authorized =
      let (v, f, _, _) = (authorize_iff digest s now b c).0 authorized in
      let (asked_for, id_r, hash_r, expiry_r, by_r) =
        create_inv code_name asked fresh requested_by reason expires_at a d r created in
      let (approving, named, other, id_s, hash_s, expiry_s) =
        decide_inv decided r s kind decided_by chosen v.approved in
      (
        asked_for,
        approving,
        ==→≢ decided_by "" named,
        rw (← by_r) (==→≢ decided_by r.requested_by other),
        sym f.same_action ∙ id_s ∙ id_r,
        inj (f.same_payload ∙ hash_s ∙ hash_r),
        not_expired_lt s now (or_ttl expires_at asked) (expiry_s ∙ expiry_r) v.current,
      )
