-- ===== src/Executor/Approvals.antt =====
-- The durable approvals: `consume_if_valid` of app/database/repositories.py, reached through
-- `load_approval_request` and `consume_durable` of approval_persistence.py. A row is kept as the
-- request that it is read back as.
use mr_enderson.Base.{
  ℕ, String, Bool, true, false, ◌&&◌, not, Option, none, some, Dict, lookup, insert, ◌==◌,
  string_eq, ltb, if◌then◌else◌,
}
use mr_enderson.Schemas.{ApprovalRequest, ApprovalRequestStatus, approval_request_status_eq}

-- The rows, by id.
abbrev pub Approvals : Type 0
Approvals = Dict String ApprovalRequest

unfoldable pub load_approval_request : Approvals → String → Option ApprovalRequest
load_approval_request rows id = lookup id rows

-- `expires_at IS NULL OR expires_at > now`
abbrev pub not_expired : Option ℕ → ℕ → Bool
not_expired none now = true
not_expired (some t) now = ltb now t

-- The WHERE clause, but for the id.
unfoldable pub matches : ApprovalRequest → (action_id action_hash : String) → ℕ → Bool
matches row action_id action_hash now =
    not row.consumed
    && (row.status == ApprovalRequestStatus.approved
        && (row.action_id == action_id
            && (row.action_hash == action_hash && not_expired row.expires_at now)))

-- The conditional update, and whether it matched a row.
unfoldable pub consume_if_valid :
    Approvals → (id action_id action_hash : String) → ℕ → Approvals × Bool
unfolding matches
consume_if_valid rows id action_id action_hash now = elim (lookup id rows) [
  | none ↦ (rows, false)
  | some row ↦
      if matches row action_id action_hash now
      then (insert id (record row { consumed = true; consumed_at = some now }) rows, true)
      else (rows, false)
]
