-- ===== src/ApprovalEngine/Hash.antt =====
-- app/decision_intelligence/action_hash.py. Canonical JSON and SHA-256 are the libraries', so the
-- digest of a payload is a parameter.
use mr_enderson.Base.{String, Option, ◌≡◌}
use mr_enderson.Schemas.{PermissionLevel, RiskLevel, Json, Action}

-- `canonical_action_payload`: the fields of `_HASHED_FIELDS`.
pub record Payload : Type 0 where
  pub action_type : String
  pub tool_name : Option String
  pub inputs : Json
  pub expected_result : String
  pub permission_level : PermissionLevel
  pub risk_level : RiskLevel

unfoldable pub canonical_action_payload : Action → Payload
canonical_action_payload a = record {
  action_type = a.action_type;
  tool_name = a.tool_name;
  inputs = a.inputs;
  expected_result = a.expected_result;
  permission_level = a.permission_level;
  risk_level = a.risk_level;
}

-- `json.dumps` with sorted keys, and then `hashlib.sha256(...).hexdigest()`.
abbrev pub Digest : Type 0
Digest = Payload → String

-- The two payloads do not collide: they have one digest only where they are one payload.
abbrev pub DoNotCollide : Digest → Payload → Payload → Type 0
DoNotCollide digest p q = digest p ≡ digest q → p ≡ q

unfoldable pub compute_action_hash : Digest → Action → String
compute_action_hash digest a = digest (canonical_action_payload a)
