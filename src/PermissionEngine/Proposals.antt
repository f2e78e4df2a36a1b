-- ===== src/PermissionEngine/Proposals.antt =====
-- The permission and risk that an action proposes are never authoritative.
use mr_enderson.Base.{Bool, string_eq, []}
use mr_enderson.Schemas.{PermissionLevel, RiskLevel, Action}
use mr_enderson.PermissionEngine.Decisions.{PermissionDecision}

-- A decision with its reason codes removed, and nothing else.
abbrev pub verdict : PermissionDecision → PermissionDecision
verdict d = record d { reason_codes = [] }

-- The action, with another proposal.
abbrev pub proposing : Action → PermissionLevel → RiskLevel → Bool → Action
proposing a p r required = record a {
  permission_level = p;
  risk_level = r;
  approval_required = required;
}
